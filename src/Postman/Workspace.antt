-- ===== src/Postman/Workspace.antt =====
-- src/lib/postman/workspace-selection.ts: which workspace a run uses for a repository.
pub mod Laws
mod Tests
use postman_bootstrap_action.Base.{
  ℕ, Bool, true, false, not, ◌&&◌, ◌||◌, Option, none, some, List, [], ◌∷◌, ◌++◌, Text,
  Text-discrete, codes, ◌===◌, is_empty, trim, any, map, if◌then◌else◌,
}

pub record WorkspaceCandidate : Type 0 where
  pub id : Text
  pub linked_repo_url : Option Text

pub data SelectionSource : Type 0 where
  linked_match repo_var name_match : SelectionSource

-- A selection that exists says whether it comes with a warning; the texts are left out.
pub data CanonicalWorkspaceSelection : Type 0 where
  existing :
      (workspace_id : Text) → SelectionSource → (has_warning : Bool) → CanonicalWorkspaceSelection
  create : CanonicalWorkspaceSelection
  manual_review : CanonicalWorkspaceSelection

unfoldable pub filter : {A : Type 0} → (A → Bool) → List A → List A
filter p [] = []
filter p (x ∷ xs) = let rest = filter p xs in if p x then x ∷ rest else rest

abbrev text_or_blank : Option Text → Text
text_or_blank none = []
text_or_blank (some t) = t

-- `localeCompare` as the test whether one text is before another, and the canonical form of a URL.
module _ (is_before : Text → Text → Bool) (normalize : Option Text → Text) where
  unfoldable pub insert_candidate :
      WorkspaceCandidate → List WorkspaceCandidate → List WorkspaceCandidate
  insert_candidate w [] = w ∷ []
  insert_candidate w (v ∷ vs) =
      let rest = insert_candidate w vs in if is_before v.id w.id then v ∷ rest else w ∷ v ∷ vs

  unfoldable pub sort_candidates : List WorkspaceCandidate → List WorkspaceCandidate
  sort_candidates [] = []
  sort_candidates (w ∷ ws) = insert_candidate w (sort_candidates ws)

  unfoldable pub is_linked : Text → WorkspaceCandidate → Bool
  is_linked repo w = normalize w.linked_repo_url === repo

  -- There is a link, and it is to another repository.
  unfoldable pub is_foreign : Text → WorkspaceCandidate → Bool
  is_foreign repo w =
      not (is_empty (text_or_blank w.linked_repo_url)) && not (normalize w.linked_repo_url === repo)

  unfoldable pub find_candidate : Text → List WorkspaceCandidate → Option WorkspaceCandidate
  find_candidate id [] = none
  find_candidate id (w ∷ ws) =
      let rest = find_candidate id ws in if w.id === id then some w else rest

  unfoldable pub choose_found :
      Text → Text → SelectionSource → Option WorkspaceCandidate → CanonicalWorkspaceSelection
  choose_found repo id source none = existing id source false
  choose_found repo id source (some w) =
      if is_foreign repo w then create else existing id source false

  -- No candidate is linked to the repository.
  unfoldable pub choose_unlinked :
      Text → Text → List WorkspaceCandidate → CanonicalWorkspaceSelection
  choose_unlinked repo repo_id [] =
      if is_empty repo_id then create else existing repo_id repo_var false
  choose_unlinked repo repo_id (w ∷ ws) =
      if is_empty repo_id
      then choose_found repo w.id name_match (some w)
      else choose_found repo repo_id repo_var (find_candidate repo_id (w ∷ ws))

  unfoldable pub choose_among :
      Text → Text → List WorkspaceCandidate → List WorkspaceCandidate → CanonicalWorkspaceSelection
  choose_among repo repo_id candidates [] = choose_unlinked repo repo_id candidates
  choose_among repo repo_id candidates (w ∷ []) =
      existing w.id linked_match (not (is_empty repo_id) && not (repo_id === w.id))
  choose_among repo repo_id candidates (w ∷ (v ∷ vs)) =
      if not (is_empty repo_id) && any (λ (c : WorkspaceCandidate). c.id === repo_id) (w ∷ v ∷ vs)
      then existing repo_id linked_match true
      else manual_review

  unfoldable pub choose_canonical_workspace :
      Option Text → Option Text → List WorkspaceCandidate → CanonicalWorkspaceSelection
  choose_canonical_workspace repo_workspace_id repo_url matching =
      choose_among (normalize repo_url) (trim (text_or_blank repo_workspace_id))
        (sort_candidates matching)
        (filter (is_linked (normalize repo_url)) (sort_candidates matching))

  -- The client's answers: the workspaces of a name, `none` where the call fails, and the repository
  -- that a workspace is linked to, with `none` outside where that call fails.
  module _ (find_workspaces_by_name : Text → Option (List Text))
      (get_workspace_git_repo_url : Text → Option (Option Text)) where
    unfoldable pub with_link : Text → WorkspaceCandidate
    with_link id = record { id = id; linked_repo_url = flatten (get_workspace_git_repo_url id) }
      where
        flatten : Option (Option Text) → Option Text
        flatten none = none
        flatten (some link) = link

    -- `none` where the error of the search is thrown again.
    unfoldable pub resolve_canonical_workspace_selection :
        Text → Option Text → Option Text → Option CanonicalWorkspaceSelection
    resolve_canonical_workspace_selection workspace_name repo_workspace_id repo_url =
        elim (find_workspaces_by_name workspace_name) [
          | none ↦
              if is_empty (text_or_blank repo_workspace_id)
              then none
              else some (choose_canonical_workspace repo_workspace_id repo_url [])
          | some ids ↦
              some (choose_canonical_workspace repo_workspace_id repo_url (map with_link ids))
        ]
