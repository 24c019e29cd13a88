-- ===== src/Postman/Workspace/Tests.antt =====
-- The selection of a workspace at concrete candidates.
use postman_bootstrap_action.Base.{
  true, Option, none, some, [], ◌∷◌, Text, codes, Text-discrete, ℕ_discrete, is_space, drop_while,
  drop_last_while, trim, cut, split_on, strip_prefix, ◌≡◌, refl,
}
use postman_bootstrap_action.Base.Sorting.{lt_text}
use postman_bootstrap_action.Postman.GitUrl.{
  ParsedUrl, ascii_lower, drop_git, drop_slashes, nonempty_parts, path_parts, ssh_parts,
  normalize_url, normalize_git_repo_url,
}
use postman_bootstrap_action.Postman.Workspace.{
  WorkspaceCandidate, existing, linked_match, filter, insert_candidate, sort_candidates, is_linked,
  choose_among, choose_canonical_workspace,
}
use postman_bootstrap_action.Postman.Workspace.Laws.{
  IsJustified, choose_canonical_workspace-IsJustified,
}

-- Every URL is one of `github.com`, and case is ASCII's.
abbrev parsed : Text → Option ParsedUrl
parsed t = some (record { hostname = codes "github.com"; pathname = codes "/Acme/Api.git/" })

abbrev normal : Option Text → Text
normal = normalize_git_repo_url ascii_lower parsed

ssh_and_https :
    (normal (some (codes " git@github.com:Acme/Api.git ")) ≡ codes "https://github.com/acme/api")
    × (normal (some (codes "https://github.com/Acme/Api.git/"))
        ≡ codes "https://github.com/acme/api")
unfolding normalize_git_repo_url normalize_url ssh_parts path_parts nonempty_parts drop_slashes
    drop_git ascii_lower trim drop_while drop_last_while is_space cut split_on strip_prefix
ssh_and_https = (refl, refl)

abbrev plain : Option Text → Text
plain none = []
plain (some t) = t

abbrev mine : WorkspaceCandidate
mine = record { id = codes "w2"; linked_repo_url = some (codes "mine") }

abbrev other : WorkspaceCandidate
other = record { id = codes "w1"; linked_repo_url = some (codes "other") }

linked_one_is_chosen :
    choose_canonical_workspace lt_text plain
      (some (codes "w1"))
      (some (codes "mine"))
      (mine ∷ other ∷ [])
    ≡ existing (codes "w2") linked_match true
unfolding choose_canonical_workspace choose_among sort_candidates insert_candidate filter is_linked
    lt_text trim drop_while drop_last_while is_space Text-discrete ℕ_discrete
linked_one_is_chosen = refl

choose_canonical_workspace-IsJustified_example :
    IsJustified lt_text plain (codes "mine") (mine ∷ other ∷ []) (
      choose_canonical_workspace lt_text plain
        (some (codes "w1"))
        (some (codes "mine"))
        (mine ∷ other ∷ []))
unfolding Text-discrete ℕ_discrete
choose_canonical_workspace-IsJustified_example =
    choose_canonical_workspace-IsJustified lt_text plain (some (codes "w1")) (some (codes "mine"))
      (mine ∷ other ∷ []) (refl, (refl, tt))
