-- ===== src/Repo/Branch/Identity/Laws.antt =====
-- What every identity that `resolveBranchIdentity` returns satisfies.
use postman_bootstrap_action.Base.{
  true, Option, none, some, Text, trim, or_else, ◌≡◌, refl, ap, ◌∙◌, ◌≢◌, ◌↔◌, ◌⊎◌, arith, [],
}
use postman_bootstrap_action.Repo.Branch.{
  BranchIdentity, IdentityProvider, RefKind, clean, or_blank,
}
use postman_bootstrap_action.Repo.Branch.{github, gitlab, bitbucket, azure_devops}
use postman_bootstrap_action.Repo.Branch.Identity.{
  Env, github_head_ref, event_or_none, read_github_event, both_and_differ, github_ref,
  github_ref_name, build_sourcebranch, system_pullrequest_sourcebranch, GithubEventPayload,
  ParsedRef, branch_name, strip_raw_ref, strip_ref_prefix, detect_provider, mark_default,
  gitlab_identity, bitbucket_identity, github_identity, azure_identity, provider_identity,
  resolve_branch_identity,
}

abbrev pub IsBranchKind : RefKind → Type 0
IsBranchKind k = (k ≡ RefKind.branch) ⊎ (k ≡ RefKind.default_branch)

-- Before the default branch is marked.
record IsRaw (i : BranchIdentity) : Type 0 where
  headed : (i.head_branch ≢ none) ↔ (i.ref_kind ≡ RefKind.branch)
  unmarked : i.ref_kind ≢ RefKind.default_branch
  fork_is_pr : i.is_fork_pr ≡ true → i.is_pr_context ≡ true

-- A head branch is known exactly for branch refs; the default branch is recognised exactly; a fork
-- is only reported for a pull request.
pub record IsCoherent (i : BranchIdentity) : Type 0 where
  pub headed : (i.head_branch ≢ none) ↔ IsBranchKind i.ref_kind
  pub defaulted :
      (i.ref_kind ≡ RefKind.default_branch)
      ↔ ((i.head_branch ≡ i.default_branch) × (or_blank i.head_branch ≢ []))
  pub fork_is_pr : i.is_fork_pr ≡ true → i.is_pr_context ≡ true

gitlab_identity-IsRaw : (env : Env) (explicit : Option Text) → IsRaw (gitlab_identity env explicit)
unfolding gitlab_identity
gitlab_identity-IsRaw env explicit = ground arith

bitbucket_identity-IsRaw :
    (env : Env) (explicit : Option Text) → IsRaw (bitbucket_identity env explicit)
unfolding bitbucket_identity
bitbucket_identity-IsRaw env explicit = ground arith

record IsParsed (p : ParsedRef) : Type 0 where
  named : (branch_name p ≢ none) ↔ (p.kind ≡ RefKind.branch)
  unmarked : p.kind ≢ RefKind.default_branch

strip_raw_ref-IsParsed : (raw : Text) → IsParsed (strip_raw_ref raw)
unfolding strip_raw_ref
strip_raw_ref-IsParsed raw = ground arith

strip_ref_prefix-IsParsed : (ref : Option Text) → IsParsed (strip_ref_prefix ref)
unfolding strip_ref_prefix clean
strip_ref_prefix-IsParsed ref = ground (arith, strip_raw_ref-IsParsed (trim (or_blank ref)))

module _ (read_event : Text → Option GithubEventPayload) (to_lower : Text → Text) where
  github_identity-IsRaw :
      (env : Env) (explicit : Option Text)
      → IsRaw (github_identity read_event to_lower env explicit)
  unfolding github_identity
  github_identity-IsRaw env explicit = ground (
    arith,
    strip_ref_prefix-IsParsed (or_else (clean (env github_ref)) (clean (env github_ref_name))),
  )

  azure_identity-IsRaw :
      (env : Env) (explicit : Option Text) → IsRaw (azure_identity read_event to_lower env explicit)
  unfolding azure_identity
  azure_identity-IsRaw env explicit = ground (
    arith,
    strip_ref_prefix-IsParsed (clean (env build_sourcebranch)),
    strip_ref_prefix-IsParsed (clean (env system_pullrequest_sourcebranch)),
  )

  provider_identity-IsRaw :
      (p : IdentityProvider) (env : Env) (explicit : Option Text)
      → IsRaw (provider_identity read_event to_lower p env explicit)
  unfolding provider_identity
  provider_identity-IsRaw github env explicit = github_identity-IsRaw env explicit
  provider_identity-IsRaw gitlab env explicit = gitlab_identity-IsRaw env explicit
  provider_identity-IsRaw bitbucket env explicit = bitbucket_identity-IsRaw env explicit
  provider_identity-IsRaw azure_devops env explicit = azure_identity-IsRaw env explicit
  provider_identity-IsRaw IdentityProvider.unknown env explicit = ground arith

  mark_default-IsCoherent : (i : BranchIdentity) → IsRaw i → IsCoherent (mark_default i)
  unfolding mark_default
  mark_default-IsCoherent i h = ground arith

  -- Whatever the environment: a head branch is known exactly if the ref is a branch; it is the default
  -- branch exactly if its name is the known default branch's and is not empty; and a fork is only
  -- reported for a pull request.
  pub resolve_branch_identity-IsCoherent :
      (env : Env) (explicit : Option Text)
      → IsCoherent (resolve_branch_identity read_event to_lower env explicit)
  unfolding resolve_branch_identity
  resolve_branch_identity-IsCoherent env explicit =
      mark_default-IsCoherent _ (provider_identity-IsRaw (detect_provider env) env (clean explicit))

  mark_default_keeps :
      (i : BranchIdentity)
      → let m = mark_default i in
        (m.head_branch ≡ i.head_branch)
        × (m.is_pr_context ≡ i.is_pr_context)
        × (m.is_fork_pr ≡ i.is_fork_pr)
        × (i.ref_kind ≡ RefKind.branch → IsBranchKind m.ref_kind)
  unfolding mark_default
  mark_default_keeps i = ground arith

  github_identity_pr :
      (env : Env) (explicit : Option Text) (head : Text)
      → clean (env github_head_ref) ≡ some head
      → let i = github_identity read_event to_lower env explicit in
        let event = event_or_none (read_github_event read_event to_lower env) in
        (i.head_branch ≡ some head)
        × (i.ref_kind ≡ RefKind.branch)
        × (i.is_pr_context ≡ true)
        × (i.is_fork_pr
            ≡ both_and_differ event.head_full_name (or_else event.base_full_name event.full_name))
  unfolding github_identity
  github_identity_pr env explicit head in_pr = rw (in_pr, github_identity) (refl, refl, refl, refl)

  -- On GitHub, a pull request's head branch is GITHUB_HEAD_REF; it is a fork's exactly if the event
  -- names a head and a base repository that differ; and it is never taken for a ref without branch.
  pub resolve_branch_identity_github_pr :
      (env : Env) (explicit : Option Text) (head : Text)
      → detect_provider env ≡ github
      → clean (env github_head_ref) ≡ some head
      → let i = resolve_branch_identity read_event to_lower env explicit in
        let event = event_or_none (read_github_event read_event to_lower env) in
        (i.head_branch ≡ some head)
        × IsBranchKind i.ref_kind
        × (i.is_pr_context ≡ true)
        × (i.is_fork_pr
            ≡ both_and_differ event.head_full_name (or_else event.base_full_name event.full_name))
  unfolding resolve_branch_identity provider_identity
  resolve_branch_identity_github_pr env explicit head on_github in_pr =
      let i = provider_identity read_event to_lower (detect_provider env) env (clean explicit) in
      let same = ap (λ p. provider_identity read_event to_lower p env (clean explicit)) on_github in
      let (head_is, kind, pr, fork) = github_identity_pr env (clean explicit) head in_pr in
      let (keep_head, keep_pr, keep_fork, keep_kind) = mark_default_keeps i in
      (
        keep_head ∙ ap (λ (i : BranchIdentity). i.head_branch) same ∙ head_is,
        keep_kind (ap (λ (i : BranchIdentity). i.ref_kind) same ∙ kind),
        keep_pr ∙ ap (λ (i : BranchIdentity). i.is_pr_context) same ∙ pr,
        keep_fork ∙ ap (λ (i : BranchIdentity). i.is_fork_pr) same ∙ fork,
      )
