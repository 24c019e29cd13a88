-- ===== src/Repo/Context.antt =====
-- src/lib/repo/context.ts: the repository that a run is for, from the inputs and the environment.
pub mod Laws
mod Tests
use postman_bootstrap_action.Base.{
  ℕ, Bool, ◌&&◌, ◌||◌, not, Option, none, some, List, [], ◌∷◌, ◌++◌, Text, codes, ◌==◌, ◌===◌,
  is_empty, is_some, trim, cut, strip_prefix, includes, reverse, any, or_else, if◌then◌else◌,
}
use mathlib.Core.Option

pub data GitProvider : Type 0 where
  github gitlab bitbucket azure_devops unknown : GitProvider

pub record RepoContextInput : Type 0 where
  pub repo_url : Option Text
  pub repo_slug : Option Text
  pub git_provider : Option Text
  pub ref : Option Text
  pub sha : Option Text

pub record RepoContext : Type 0 where
  pub provider : GitProvider
  pub repo_url : Option Text
  pub repo_slug : Option Text
  pub ref : Option Text
  pub sha : Option Text

-- The environment variables that the code reads.
pub data Variable : Type 0 where
  github_server_url github_repository github_ref_name github_sha : Variable
  ci_project_url ci_project_path ci_commit_ref_name ci_commit_sha gitlab_ci : Variable
  bitbucket_git_http_origin bitbucket_workspace bitbucket_repo_slug bitbucket_branch
        bitbucket_commit :
      Variable
  build_repository_uri build_repository_name build_sourcebranchname build_sourceversion : Variable

abbrev pub Variables : Type 0
Variables = Variable → Option Text

abbrev if_filled : Text → Option Text
if_filled t = if is_empty t then none else some t

unfoldable pub normalize : Option Text → Option Text
normalize none = none
normalize (some value) = if_filled (trim value)

abbrev is_line_end : ℕ → Bool
is_line_end c = c == 10 || c == 13 || c == 0x2028 || c == 0x2029

-- `replace(/\.git$/, '')`
unfoldable pub drop_git : Text → Text
drop_git t = elim (strip_prefix (codes "tig.") (reverse t)) [ none ↦ t | some rest ↦ reverse rest ]

-- `(.+?)(?:\.git)?$`: the ending is dropped where something is left.
unfoldable pub lazy_path : Text → Text
lazy_path t = if is_empty (drop_git t) then t else drop_git t

abbrev pub ssh_parts : Option (Text × Text) → Option (Text × Text)
ssh_parts none = none
ssh_parts (some (host, path)) =
    if is_empty host || is_empty path || any is_line_end path
    then none
    else some (host, lazy_path path)

-- `/^git@([^:]+):(.+?)(?:\.git)?$/`: the host ends at the first colon.
unfoldable pub ssh_match : Text → Option (Text × Text)
ssh_match raw = elim (strip_prefix (codes "git@") raw) [
  | none ↦ none
  | some rest ↦ ssh_parts (cut b':' rest)
]

abbrev pub web_url : Text → Text → Text
web_url host path = codes "https://" ++ (host ++ (codes "/" ++ path))

abbrev pub url_from : Text → Option (Text × Text) → Text
url_from raw none = drop_git raw
url_from raw (some (host, path)) = web_url host path

unfoldable pub repo_url_of : Text → Text
repo_url_of raw = url_from raw (ssh_match raw)

unfoldable pub normalize_repo_url : Option Text → Option Text
normalize_repo_url url = Option.map repo_url_of (normalize url)

-- `` a && b ? `${a}/${b}` : undefined ``
abbrev joined : Option Text → Option Text → Option Text
joined (some a) (some b) = if is_empty a || is_empty b then none else some (a ++ (codes "/" ++ b))
joined _ _ = none

abbrev first_given : List (Option Text) → Option Text
first_given [] = none
first_given (o ∷ os) = or_else o (first_given os)

abbrev text_of : Option Text → Text
text_of none = []
text_of (some t) = t

-- The provider that an input names.
unfoldable pub named_provider : Text → Option GitProvider
named_provider name =
    if name === codes "github"
    then some github
    else if name === codes "gitlab"
    then some gitlab
    else if name === codes "bitbucket"
    then some bitbucket
    else if name === codes "azure-devops"
    then some azure_devops
    else none

-- The provider that a URL in lower case is of.
unfoldable pub url_provider : Text → Option GitProvider
url_provider url =
    if includes (codes "github") url
    then some github
    else if includes (codes "gitlab") url
    then some gitlab
    else if includes (codes "bitbucket") url
    then some bitbucket
    else if includes (codes "dev.azure.com") url || includes (codes "visualstudio.com") url
    then some azure_devops
    else none

unfoldable pub env_provider : Variables → GitProvider
env_provider env =
    if is_some (normalize (env github_repository))
    then github
    else if is_some (normalize (env ci_project_path)) || is_some (normalize (env gitlab_ci))
    then gitlab
    else if is_some (normalize (env bitbucket_repo_slug))
    then bitbucket
    else if is_some (normalize (env build_repository_uri))
    then azure_devops
    else unknown

abbrev provider_or : GitProvider → Option GitProvider → GitProvider
provider_or other none = other
provider_or other (some p) = p

abbrev named : (Text → Text) → Option Text → Option GitProvider
named to_lower none = none
named to_lower (some name) = named_provider (to_lower name)

module _ (to_lower : Text → Text) where
  unfoldable pub parse_provider : Option Text → Option Text → Variables → GitProvider
  parse_provider explicit repo_url env =
      provider_or (provider_or (env_provider env) (url_provider (to_lower (text_of repo_url))))
        (named to_lower (normalize explicit))

  unfoldable pub detect_repo_context : RepoContextInput → Variables → RepoContext
  detect_repo_context input env =
      let url = first_given (
        normalize_repo_url input.repo_url
        ∷ normalize_repo_url (joined (env github_server_url) (env github_repository))
        ∷ normalize_repo_url (env ci_project_url)
        ∷ normalize_repo_url (env bitbucket_git_http_origin)
        ∷ normalize_repo_url (env build_repository_uri)
        ∷ []) in
      record {
        provider = parse_provider input.git_provider url env;
        repo_url = url;
        repo_slug = first_given (
            normalize input.repo_slug
            ∷ normalize (env github_repository)
            ∷ normalize (env ci_project_path)
            ∷ normalize (joined (env bitbucket_workspace) (env bitbucket_repo_slug))
            ∷ normalize (env build_repository_name)
            ∷ []);
        ref = first_given (
            normalize input.ref
            ∷ normalize (env github_ref_name)
            ∷ normalize (env ci_commit_ref_name)
            ∷ normalize (env bitbucket_branch)
            ∷ normalize (env build_sourcebranchname)
            ∷ []);
        sha = first_given (
            normalize input.sha
            ∷ normalize (env github_sha)
            ∷ normalize (env ci_commit_sha)
            ∷ normalize (env bitbucket_commit)
            ∷ normalize (env build_sourceversion)
            ∷ []);
      }
