-- ===== src/Repo/Branch/Decide/Laws.antt =====
-- The decide step as a whole.
use postman_bootstrap_action.Base.{true, Option, none, some, Text, ◌≡◌, List, arith}
use postman_bootstrap_action.Base.Json.{Json}
use postman_bootstrap_action.Repo.Branch.{BranchTier, ChannelRule, Result, ok, clean}
use postman_bootstrap_action.Repo.Branch.Identity.{
  Env, GithubEventPayload, postman_branch_decision, resolve_branch_identity,
}
use postman_bootstrap_action.Repo.Branch.Channels.{parse_channel_rules}
use postman_bootstrap_action.Repo.Branch.Decision.{ResolveDecisionOptions}
use postman_bootstrap_action.Repo.Branch.Decide.{
  DecideInputs, EffectiveDecision, inherited, resolved, is_candidate, or_legacy,
  parse_branch_decision, keep_inherited, resolve_effective_branch_decision, decide_branch_tier,
}

abbrev pub effective_tier : Result EffectiveDecision → Option BranchTier
effective_tier (ok (resolved d)) = some d.tier
effective_tier _ = none

module _ (json_parse : Text → Option Json) (read_event : Text → Option GithubEventPayload)
    (to_lower to_upper : Text → Text) where
  -- A decision in the environment that has a known tier and an identity is the result, whatever the
  -- strategy and the branch, once the channels input parses.
  decide_branch_tier-inherited :
      (inputs : DecideInputs) (env : Env) (value : Text) (candidate : Json)
      (rules : List ChannelRule)
      → clean (env postman_branch_decision) ≡ some value
      → json_parse value ≡ some candidate
      → is_candidate candidate ≡ true
      → parse_channel_rules to_upper inputs.channels ≡ ok rules
      → decide_branch_tier json_parse read_event to_lower to_upper inputs env
        ≡ ok (inherited candidate)
  unfolding decide_branch_tier resolve_effective_branch_decision parse_branch_decision
      keep_inherited
  decide_branch_tier-inherited inputs env value candidate rules given parsed fits listed =
      ground arith

  abbrev options : DecideInputs → Env → List ChannelRule → ResolveDecisionOptions
  options inputs env rules = record {
    strategy = or_legacy inputs.branch_strategy;
    identity = resolve_branch_identity read_event to_lower env inputs.canonical_branch;
    canonical_branch = inputs.canonical_branch;
    channels = some rules;
  }
