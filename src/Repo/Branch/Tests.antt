-- ===== src/Repo/Branch/Tests.antt =====
-- The branch decision at concrete inputs: tests, and each theorem where its hypotheses hold.
use postman_bootstrap_action.Base.{
  true, Option, none, some, [], ◌∷◌, Text, codes, Text-discrete, ℕ_discrete, is_space, drop_while,
  drop_last_while, trim, strip_prefix, starts_with, ends_with, drop_last, cut, split_on, All, ◌≡◌,
  refl, ◌↔◌,
}
use postman_bootstrap_action.Repo.Branch.{RefKind, ChannelRule, ok, clean}
use postman_bootstrap_action.Repo.Branch.Identity.{
  Env, GithubEventPayload, github_actions, github_head_ref, github_event_path, github_ref_name,
  detect_provider, read_github_event, strip_ref_prefix, strip_raw_ref, mark_default,
  github_identity, provider_identity, resolve_branch_identity,
}
use postman_bootstrap_action.Repo.Branch.Identity.Laws.{
  IsCoherent, resolve_branch_identity-IsCoherent,
}
use postman_bootstrap_action.Repo.Branch.Channels.{
  is_code, channel_parts, parse_entry, parse_parts, with_release, parse_channel_rules, rule_matches,
  match_channel, release_rule,
}
use postman_bootstrap_action.Repo.Branch.Channels.Laws.{
  IsFirstMatch, match_channel-IsFirstMatch, HasCode, has_release, parse_channel_rules-HasCode,
}

-- A pull request on GitHub, from the branch `main` of a fork.
abbrev pub fork_env : Env
fork_env github_actions = some (codes "true")
fork_env github_head_ref = some (codes "main")
fork_env github_event_path = some (codes "/event.json")
fork_env github_ref_name = some (codes "7/merge")
fork_env _ = none

abbrev pub fork_event : Text → Option GithubEventPayload
fork_event path = some (record {
  default_branch = some (codes "main");
  full_name = some (codes "owner/app");
  head_sha = none;
  head_full_name = some (codes "stranger/app");
  base_full_name = none;
})

-- ASCII case, for the tests alone.
abbrev pub keep_case : Text → Text
keep_case t = t

fork_pr_is_seen :
    let i = resolve_branch_identity fork_event keep_case fork_env none in
    (i.head_branch ≡ some (codes "main"))
    × (i.ref_kind ≡ RefKind.default_branch)
    × (i.is_fork_pr ≡ true)
unfolding resolve_branch_identity detect_provider provider_identity github_identity
    read_github_event strip_ref_prefix strip_raw_ref mark_default clean trim drop_while
    drop_last_while is_space strip_prefix starts_with Text-discrete ℕ_discrete
fork_pr_is_seen = (refl, refl, refl)

resolve_branch_identity-IsCoherent_example :
    IsCoherent (resolve_branch_identity fork_event keep_case fork_env none)
resolve_branch_identity-IsCoherent_example =
    resolve_branch_identity-IsCoherent fork_event keep_case fork_env none

abbrev pub dev_rule : ChannelRule
dev_rule = record { pattern = codes "develop"; code = codes "DEV" }

abbrev pub channels_input : Option Text
channels_input = some (codes " develop = DEV ,, ")

pub channels_parse :
    parse_channel_rules keep_case channels_input ≡ ok (dev_rule ∷ release_rule ∷ [])
unfolding parse_channel_rules channel_parts parse_parts parse_entry with_release is_code clean trim
    drop_while drop_last_while is_space cut split_on Text-discrete ℕ_discrete
channels_parse = refl

parse_channel_rules-HasCode_example :
    All HasCode (dev_rule ∷ release_rule ∷ []) × (has_release (dev_rule ∷ release_rule ∷ []) ≡ true)
parse_channel_rules-HasCode_example =
    parse_channel_rules-HasCode keep_case channels_input (dev_rule ∷ release_rule ∷ [])
      channels_parse

release_branch :
    match_channel (codes "release/1.2") (dev_rule ∷ release_rule ∷ []) ≡ some release_rule
unfolding match_channel rule_matches ends_with starts_with drop_last Text-discrete ℕ_discrete
release_branch = refl

match_channel-IsFirstMatch_example :
    (match_channel (codes "release/1.2") (dev_rule ∷ release_rule ∷ []) ≡ some release_rule)
    ↔ IsFirstMatch (codes "release/1.2") (dev_rule ∷ release_rule ∷ []) release_rule
match_channel-IsFirstMatch_example =
    match_channel-IsFirstMatch (codes "release/1.2") (dev_rule ∷ release_rule ∷ []) release_rule
