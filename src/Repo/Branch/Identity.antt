-- ===== src/Repo/Branch/Identity.antt =====
-- src/lib/repo/branch-decision.ts: the identity of the branch that a CI run is on, read from the
-- provider's environment variables and, on GitHub, from the event payload.
pub mod Laws
use postman_bootstrap_action.Base.{
  Bool, true, false, not, ◌&&◌, ◌||◌, Option, none, some, Text, codes, ◌===◌, is_empty, is_some,
  or_else, strip_prefix, starts_with, if◌then◌else◌, String,
}
use postman_bootstrap_action.Repo.Branch.{
  BranchIdentity, IdentityProvider, RefKind, github, gitlab, bitbucket, azure_devops, clean,
  or_blank,
}

-- The environment variables that the code reads.
pub data EnvKey : Type 0 where
  github_actions github_repository github_event_path github_sha github_head_ref github_ref
        github_ref_name :
      EnvKey
  gitlab_ci ci_project_path ci_commit_sha ci_default_branch ci_merge_request_source_branch_name
        ci_merge_request_source_project_id ci_merge_request_project_id ci_commit_tag
        ci_commit_branch ci_commit_ref_name :
      EnvKey
  bitbucket_repo_slug bitbucket_branch bitbucket_commit bitbucket_tag bitbucket_pr_id : EnvKey
  tf_build build_repository_uri build_sourceversion system_pullrequest_sourcebranch
        system_pullrequest_isfork build_sourcebranch :
      EnvKey
  postman_branch_decision : EnvKey

abbrev pub Env : Type 0
Env = EnvKey → Option Text

-- The fields of the event payload that the code reads, each `none` where a link of its `?.` chain is
-- absent.
pub record GithubEventPayload : Type 0 where
  pub default_branch : Option Text
  pub full_name : Option Text
  pub head_sha : Option Text
  pub head_full_name : Option Text
  pub base_full_name : Option Text

pub record ParsedRef : Type 0 where
  pub name : Option Text
  pub kind : RefKind

abbrev pub unnamed : RefKind → ParsedRef
unnamed k = record { name = none; kind = k }

abbrev pub named : Text → RefKind → ParsedRef
named n k = record { name = some n; kind = k }

-- The part after the first tests of `stripRefPrefix`, on a ref that is not blank.
unfoldable pub strip_raw_ref : Text → ParsedRef
strip_raw_ref raw = elim (strip_prefix (codes "refs/heads/") raw) [
  | some name ↦ named name RefKind.branch
  | none ↦ elim (strip_prefix (codes "refs/tags/") raw) [
    | some name ↦ named name RefKind.tag
    | none ↦
        if starts_with (codes "refs/pull/") raw || starts_with (codes "refs/merge") raw
        then unnamed RefKind.unknown
        else named raw RefKind.branch
  ]
]

unfoldable pub strip_ref_prefix : Option Text → ParsedRef
strip_ref_prefix ref = elim (clean ref) [
  | none ↦ unnamed RefKind.unknown
  | some raw ↦ strip_raw_ref raw
]

unfoldable pub detect_provider : Env → IdentityProvider
detect_provider env =
    if is_some (clean (env github_actions)) || is_some (clean (env github_repository))
    then github
    else if is_some (clean (env gitlab_ci)) || is_some (clean (env ci_project_path))
    then gitlab
    else if is_some (clean (env bitbucket_repo_slug)) || is_some (clean (env bitbucket_branch))
    then bitbucket
    else if is_some (clean (env tf_build)) || is_some (clean (env build_repository_uri))
    then azure_devops
    else IdentityProvider.unknown

abbrev pub is_branch : RefKind → Bool
is_branch RefKind.branch = true
is_branch _ = false

-- `parsed.kind === 'branch' ? parsed.name : undefined`
abbrev pub branch_name : ParsedRef → Option Text
branch_name p = if is_branch p.kind then p.name else none

-- `Boolean(a && b && a !== b)`
abbrev pub both_and_differ : Option Text → Option Text → Bool
both_and_differ a b =
    not (is_empty (or_blank a)) && (not (is_empty (or_blank b)) && not (or_blank a === or_blank b))

-- `headBranch ? 'branch' : 'unknown'`, of a name that `clean` returned.
abbrev pub kind_of_head : Option Text → RefKind
kind_of_head none = RefKind.unknown
kind_of_head (some b) = RefKind.branch

-- An identity from a ref that is parsed, outside a pull request.
abbrev pub from_ref :
    IdentityProvider
    → Option Text
    → Option Text
    → Option Text
    → ParsedRef
    → Bool
    → Bool
    → BranchIdentity
from_ref provider default sha raw parsed pr fork = record {
  provider = provider;
  head_branch = branch_name parsed;
  raw_ref = raw;
  default_branch = default;
  ref_kind = parsed.kind;
  is_pr_context = pr;
  is_fork_pr = fork;
  head_sha = sha;
}

-- An identity from a variable that holds a plain branch name, and so on for a tag.
abbrev pub from_head :
    IdentityProvider
    → Option Text
    → Option Text
    → Option Text
    → Option Text
    → RefKind
    → Bool
    → Bool
    → BranchIdentity
from_head provider default sha head raw kind pr fork = record {
  provider = provider;
  head_branch = head;
  raw_ref = raw;
  default_branch = default;
  ref_kind = kind;
  is_pr_context = pr;
  is_fork_pr = fork;
  head_sha = sha;
}

abbrev pub no_event : GithubEventPayload
no_event = record {
  default_branch = none;
  full_name = none;
  head_sha = none;
  head_full_name = none;
  base_full_name = none;
}

abbrev pub event_or_none : Option GithubEventPayload → GithubEventPayload
event_or_none none = no_event
event_or_none (some e) = e

-- The last test of `resolveBranchIdentity`.
unfoldable pub mark_default : BranchIdentity → BranchIdentity
mark_default i =
    if is_branch i.ref_kind
      && not (is_empty (or_blank i.head_branch))
      && not (is_empty (or_blank i.default_branch))
      && or_blank i.head_branch === or_blank i.default_branch
    then record i { ref_kind = RefKind.default_branch }
    else i

unfoldable pub gitlab_identity : Env → Option Text → BranchIdentity
gitlab_identity env explicit =
    let sha = clean (env ci_commit_sha) in
    let default = or_else explicit (clean (env ci_default_branch)) in
    let head = or_else (clean (env ci_commit_branch)) (clean (env ci_commit_ref_name)) in
    elim (clean (env ci_merge_request_source_branch_name)) [
      | some source ↦ from_head gitlab default sha (some source) (some source) RefKind.branch true (
          both_and_differ (clean (env ci_merge_request_source_project_id))
            (clean (env ci_merge_request_project_id)))
      | none ↦ elim (clean (env ci_commit_tag)) [
        | some name ↦ from_head gitlab default sha none (some name) RefKind.tag false false
        | none ↦ from_head gitlab default sha head head (kind_of_head head) false false
      ]
    ]

unfoldable pub bitbucket_identity : Env → Option Text → BranchIdentity
bitbucket_identity env explicit =
    let sha = clean (env bitbucket_commit) in
    let head = clean (env bitbucket_branch) in
    elim (clean (env bitbucket_tag)) [
      | some name ↦ from_head bitbucket explicit sha none (some name) RefKind.tag false false
      | none ↦
          from_head bitbucket explicit sha head head (kind_of_head head)
            (is_some (clean (env bitbucket_pr_id))) false
    ]

-- The event file and the Unicode case table are the runtime's: parameters.
module _ (read_event : Text → Option GithubEventPayload) (to_lower : Text → Text) where
  unfoldable pub read_github_event : Env → Option GithubEventPayload
  read_github_event env = elim (clean (env github_event_path)) [
    | none ↦ none
    | some path ↦ read_event path
  ]

  unfoldable pub github_identity : Env → Option Text → BranchIdentity
  github_identity env explicit =
      let event = event_or_none (read_github_event env) in
      let sha = clean (env github_sha) in
      let default = or_else explicit (clean event.default_branch) in
      let ref = or_else (clean (env github_ref)) (clean (env github_ref_name)) in
      elim (clean (env github_head_ref)) [
        | some head ↦
            from_head github default (or_else (clean event.head_sha) sha) (some head)
              (or_else (clean (env github_ref)) (some head)) RefKind.branch true
              (both_and_differ event.head_full_name (or_else event.base_full_name event.full_name))
        | none ↦ from_ref github default sha ref (strip_ref_prefix ref) false false
      ]

  -- `forkFlag?.toLowerCase() === 'true'`
  unfoldable pub fork_flag : Option Text → Bool
  fork_flag none = false
  fork_flag (some flag) = to_lower flag === codes "true"

  unfoldable pub azure_identity : Env → Option Text → BranchIdentity
  azure_identity env explicit =
      let sha = clean (env build_sourceversion) in
      let ref = clean (env build_sourcebranch) in
      elim (clean (env system_pullrequest_sourcebranch)) [
        | some source ↦
            from_ref azure_devops explicit sha (some source) (strip_ref_prefix (some source)) true
              (fork_flag (clean (env system_pullrequest_isfork)))
        | none ↦ from_ref azure_devops explicit sha ref (strip_ref_prefix ref) false false
      ]

  -- The `switch` on the provider.
  unfoldable pub provider_identity : IdentityProvider → Env → Option Text → BranchIdentity
  provider_identity github env explicit = github_identity env explicit
  provider_identity gitlab env explicit = gitlab_identity env explicit
  provider_identity bitbucket env explicit = bitbucket_identity env explicit
  provider_identity azure_devops env explicit = azure_identity env explicit
  provider_identity IdentityProvider.unknown env explicit =
      from_head IdentityProvider.unknown explicit none none none RefKind.unknown false false

  unfoldable pub resolve_branch_identity : Env → Option Text → BranchIdentity
  resolve_branch_identity env explicit =
      mark_default (provider_identity (detect_provider env) env (clean explicit))
