-- ===== src/Repo/Context/Laws.antt =====
-- The two ways to write the URL of a repository (src/lib/repo/context.ts).
use postman_bootstrap_action.Base.{
  ℕ, Bool, false, none, some, [], ◌∷◌, ◌++◌, Text, codes, ◌==◌, is_empty, is_space, trim,
  drop_while, drop_last_while, cut, strip_prefix, reverse, any, ◌≡◌, refl, ap, sym, subst, ◌∙◌,
  arith,
}
use mathlib.Core.Option
use mathlib.Core.List.{reverse-append, reverse-reverse}
use postman_bootstrap_action.Repo.Context.{
  RepoContextInput, Variables, normalize, drop_git, lazy_path, ssh_match, web_url, repo_url_of,
  url_from, normalize_repo_url, detect_repo_context, is_line_end,
}

-- A text that is not empty and has no white space at its end.
abbrev IsKept : Text → Type 0
IsKept s = (drop_last_while is_space s ≡ s) × (is_empty s ≡ false)

append-IsKept : (t s : Text) → IsKept s → IsKept (t ++ s)
unfolding drop_last_while
append-IsKept [] s h = h
append-IsKept (c ∷ t) s h = let rest = append-IsKept t s h in (rw (rest.0, rest.1) refl, refl)

git-IsKept : IsKept (codes ".git")
unfolding drop_last_while is_space
git-IsKept = (refl, refl)

drop_git-append : (t : Text) → drop_git (t ++ codes ".git") ≡ t
unfolding drop_git strip_prefix
drop_git-append t =
    subst
      (λ r.
        (elim (strip_prefix (codes "tig.") r) [
          | none ↦ t ++ codes ".git"
          | some rest ↦ reverse rest
        ])
        ≡ t)
      (sym (reverse-append t (codes ".git"))) (reverse-reverse t)

lazy_path-append : (t : Text) → is_empty t ≡ false → lazy_path (t ++ codes ".git") ≡ t
unfolding lazy_path
lazy_path-append t filled = rw (drop_git-append t, filled) refl

abbrev pub is_colon : ℕ → Bool
is_colon c = c == b':'

cut-colon :
    (host rest : Text)
    → any is_colon host ≡ false
    → cut b':' (host ++ (b':' ∷ rest)) ≡ some (host, rest)
unfolding cut
cut-colon [] rest h = refl
cut-colon (c ∷ host) rest h =
    let parts : (is_colon c ≡ false) × (any is_colon host ≡ false) = ground arith in
    rw (cut-colon host rest (parts.1), parts.0) refl

append-IsFilled : (path : Text) → is_empty (path ++ codes ".git") ≡ false
append-IsFilled path = (append-IsKept path (codes ".git") git-IsKept).1

any-git :
    (path : Text) → any is_line_end path ≡ false → any is_line_end (path ++ codes ".git") ≡ false
any-git [] h = refl
any-git (c ∷ path) h = ground (arith, any-git path)

-- `git@host:path.git`
abbrev pub ssh_url : Text → Text → Text
ssh_url host path = codes "git@" ++ (host ++ (codes ":" ++ (path ++ codes ".git")))

abbrev pub https_url : Text → Text → Text
https_url host path = web_url host path ++ codes ".git"

normalize-ssh : (host path : Text) → normalize (some (ssh_url host path)) ≡ some (ssh_url host path)
unfolding normalize trim drop_while is_space
normalize-ssh host path =
    rw
      ((append-IsKept (codes "git@") _
        (append-IsKept host _ (append-IsKept (codes ":") _ (append-IsKept path _ git-IsKept)))).0)
      refl

normalize-https :
    (host path : Text) → normalize (some (https_url host path)) ≡ some (https_url host path)
unfolding normalize trim drop_while is_space
normalize-https host path = rw ((append-IsKept (web_url host path) _ git-IsKept).0) refl

ssh_match-ssh :
    (host path : Text)
    → is_empty host ≡ false
    → any is_colon host ≡ false
    → is_empty path ≡ false
    → any is_line_end path ≡ false
    → ssh_match (ssh_url host path) ≡ some (host, path)
unfolding ssh_match strip_prefix
ssh_match-ssh host path named apart filled within =
    rw
      (
        cut-colon host (path ++ codes ".git") apart,
        named,
        (append-IsFilled path),
        any-git path within,
        lazy_path-append path filled,
      )
      refl

-- Both URLs of a repository become the one that a browser opens.
normalize_repo_url-ssh :
    (host path : Text)
    → is_empty host ≡ false
    → any is_colon host ≡ false
    → is_empty path ≡ false
    → any is_line_end path ≡ false
    → normalize_repo_url (some (ssh_url host path)) ≡ some (web_url host path)
unfolding normalize_repo_url repo_url_of
normalize_repo_url-ssh host path named apart filled within =
    ap (Option.map repo_url_of) (normalize-ssh host path)
    ∙ ap (λ m. some (url_from (ssh_url host path) m))
        (ssh_match-ssh host path named apart filled within)

normalize_repo_url-https :
    (host path : Text) → normalize_repo_url (some (https_url host path)) ≡ some (web_url host path)
unfolding normalize_repo_url repo_url_of ssh_match strip_prefix
normalize_repo_url-https host path =
    ap (Option.map repo_url_of) (normalize-https host path)
    ∙ ap some (drop_git-append (web_url host path))

abbrev pub with_url : Text → RepoContextInput → RepoContextInput
with_url url input = record {
  repo_url = some url;
  repo_slug = input.repo_slug;
  git_provider = input.git_provider;
  ref = input.ref;
  sha = input.sha;
}

-- A repository is the same to a run whether its URL is written for SSH, as `git@host:path.git`, or for
-- HTTPS, as `https://host/path.git`: the whole context is the same, its provider too. The host is not
-- empty and has no colon, and the path is not empty and has no line terminator.
pub detect_repo_context-ssh :
    (to_lower : Text → Text) (host path : Text) (input : RepoContextInput) (env : Variables)
    → is_empty host ≡ false
    → any is_colon host ≡ false
    → is_empty path ≡ false
    → any is_line_end path ≡ false
    → detect_repo_context to_lower (with_url (ssh_url host path) input) env
      ≡ detect_repo_context to_lower (with_url (https_url host path) input) env
unfolding detect_repo_context
detect_repo_context-ssh to_lower host path input env named apart filled within =
    rw
      (
        normalize_repo_url-ssh host path named apart filled within,
        normalize_repo_url-https host path,
      )
      refl
