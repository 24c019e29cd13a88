-- ===== src/Repo/Branch/Decide.antt =====
-- The decide step of a run: `decideBranchTier` of src/index.ts, which calls
-- `resolveEffectiveBranchDecision` of src/lib/repo/branch-decision.ts.
pub mod Laws
mod Tests
use postman_bootstrap_action.Base.{
  Bool, true, false, ◌&&◌, ◌||◌, Option, none, some, Text, codes, ◌===◌, if◌then◌else◌,
}
use postman_bootstrap_action.Base.Json.{Json, get_field, field_is_truthy, as_text}
use postman_bootstrap_action.Repo.Branch.{
  BranchStrategy, Result, ok, err, ◌>>=◌, branch_decision_invalid, clean,
}
use postman_bootstrap_action.Repo.Branch.Identity.{
  Env, GithubEventPayload, postman_branch_decision, resolve_branch_identity,
}
use postman_bootstrap_action.Repo.Branch.Channels.{parse_channel_rules}
use postman_bootstrap_action.Repo.Branch.Decision.{
  BranchDecision, ResolveDecisionOptions, resolve_branch_decision,
}

-- `tiers.includes(candidate.tier)`
unfoldable pub names_tier : Option Text → Bool
names_tier none = false
names_tier (some t) =
    t === codes "canonical"
    || t === codes "channel"
    || t === codes "preview"
    || t === codes "gated"
    || t === codes "legacy"

unfoldable pub is_candidate : Json → Bool
is_candidate v =
    names_tier (as_text (get_field v (codes "tier")))
    && field_is_truthy (get_field v (codes "identity"))

-- A decision that an earlier action handed on, unread beyond the test above, or one made here.
pub data EffectiveDecision : Type 0 where
  inherited : Json → EffectiveDecision
  resolved : BranchDecision → EffectiveDecision

pub record DecideInputs : Type 0 where
  pub branch_strategy : Option BranchStrategy
  pub canonical_branch : Option Text
  pub channels : Option Text

abbrev pub or_legacy : Option BranchStrategy → BranchStrategy
or_legacy none = BranchStrategy.legacy
or_legacy (some s) = s

-- `JSON.parse`, `none` where it throws; the event file; the Unicode case tables.
module _ (json_parse : Text → Option Json) (read_event : Text → Option GithubEventPayload)
    (to_lower to_upper : Text → Text) where
  unfoldable pub parse_branch_decision : Option Text → Result (Option Json)
  parse_branch_decision raw = elim (clean raw) [
    | none ↦ ok none
    | some value ↦ elim (json_parse value) [
      | none ↦ err branch_decision_invalid
      | some candidate ↦
          if is_candidate candidate then ok (some candidate) else err branch_decision_invalid
    ]
  ]

  -- An inherited decision is kept; `local` is the one that is made otherwise.
  unfoldable pub keep_inherited : Result BranchDecision → Option Json → Result EffectiveDecision
  keep_inherited local (some v) = ok (inherited v)
  keep_inherited local none = do d ← local; ok (resolved d)

  unfoldable pub resolve_effective_branch_decision :
      ResolveDecisionOptions → Env → Result EffectiveDecision
  resolve_effective_branch_decision o env = do
    found ← parse_branch_decision (env postman_branch_decision)
    keep_inherited (resolve_branch_decision o) found

  unfoldable pub decide_branch_tier : DecideInputs → Env → Result EffectiveDecision
  decide_branch_tier inputs env = do
    rules ← parse_channel_rules to_upper inputs.channels
    resolve_effective_branch_decision
        (record {
          strategy = or_legacy inputs.branch_strategy;
          identity = resolve_branch_identity read_event to_lower env inputs.canonical_branch;
          canonical_branch = inputs.canonical_branch;
          channels = some rules;
        })
        env
