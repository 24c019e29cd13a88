-- ===== src/Repo/Context/Tests.antt =====
-- Contexts of repositories that inputs and environments give.
use postman_bootstrap_action.Base.{
  none, some, Text, codes, Text-discrete, is_space, trim, drop_while, drop_last_while, cut,
  strip_prefix, starts_with, includes, ◌≡◌, refl,
}
use postman_bootstrap_action.Repo.Context.{
  RepoContextInput, gitlab, ci_project_url, ci_project_path, Variables, normalize, drop_git,
  lazy_path, ssh_match, repo_url_of, normalize_repo_url, named_provider, url_provider, env_provider,
  parse_provider, detect_repo_context,
}
use postman_bootstrap_action.Repo.Context.Laws.{
  ssh_url, https_url, with_url, detect_repo_context-ssh,
}

abbrev same : Text → Text
same t = t

abbrev nothing : RepoContextInput
nothing = record { repo_url = none; repo_slug = none; git_provider = none; ref = none; sha = none }

abbrev on_gitlab : Variables
on_gitlab ci_project_url = some (codes "https://git.example.org/shop/pets.git")
on_gitlab ci_project_path = some (codes "shop/pets")
on_gitlab _ = none

detect_repo_context-ssh_example :
    detect_repo_context same
      (with_url (ssh_url (codes "github.com") (codes "shop/pets")) nothing)
      on_gitlab
    ≡ detect_repo_context same
        (with_url (https_url (codes "github.com") (codes "shop/pets")) nothing)
        on_gitlab
detect_repo_context-ssh_example =
    detect_repo_context-ssh same (codes "github.com") (codes "shop/pets") nothing on_gitlab refl
      refl refl refl

from_environment : detect_repo_context same nothing on_gitlab ≡ record {
  provider = gitlab;
  repo_url = some (codes "https://git.example.org/shop/pets");
  repo_slug = some (codes "shop/pets");
  ref = none;
  sha = none;
}
unfolding normalize drop_git lazy_path ssh_match repo_url_of normalize_repo_url named_provider
    url_provider env_provider parse_provider detect_repo_context Text-discrete is_space trim
    drop_while drop_last_while cut strip_prefix starts_with includes
from_environment = refl
