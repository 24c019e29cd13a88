-- ===== src/Repo/Branch/Decide/Tests.antt =====
-- The decide step and the tiers at concrete inputs.
use postman_bootstrap_action.Base.{Option, none, some, Text, codes, ◌≡◌, ◌≢◌, ◌↔◌}
use postman_bootstrap_action.Base.Json.{Json, obj, str, field, end}
use postman_bootstrap_action.Repo.Branch.{
  BranchTier, BranchStrategy, ok, err, default_branch_unresolved,
}
use postman_bootstrap_action.Repo.Branch.Identity.{resolve_branch_identity}
use postman_bootstrap_action.Repo.Branch.Tests.{fork_event, keep_case, channels_input}
use postman_bootstrap_action.Repo.Branch.Decision.{
  BranchDecision, ResolveDecisionOptions, resolve_branch_decision,
}
use postman_bootstrap_action.Repo.Branch.Decision.Canonical.{
  IsCanonical, resolve_branch_decision-err,
}
use postman_bootstrap_action.Repo.Branch.Decision.Tiers.{
  HasTier, tier_of, resolve_branch_decision-HasTier,
}
use postman_bootstrap_action.Repo.Branch.Decide.{DecideInputs}

abbrev bare_options : ResolveDecisionOptions
bare_options = record {
  strategy = BranchStrategy.publish_gate;
  identity = resolve_branch_identity fork_event keep_case (λ k. none) none;
  canonical_branch = some (codes "main");
  channels = none;
}

resolve_branch_decision-HasTier_example :
    (tier_of (resolve_branch_decision bare_options) ≡ some BranchTier.gated)
    ↔ HasTier bare_options BranchTier.gated
resolve_branch_decision-HasTier_example =
    resolve_branch_decision-HasTier bare_options BranchTier.gated

resolve_branch_decision-err_example :
    ((resolve_branch_decision bare_options ≡ err default_branch_unresolved) ↔ (
      (BranchStrategy.publish_gate ≢ BranchStrategy.legacy)
      × ((c : Text) → ¬ IsCanonical bare_options c)))
    × ((d : BranchDecision)
        → BranchStrategy.publish_gate ≢ BranchStrategy.legacy
        → resolve_branch_decision bare_options ≡ ok d
        → (c : Text) × (IsCanonical bare_options c × (d.canonical_branch ≡ some c)))
resolve_branch_decision-err_example = resolve_branch_decision-err bare_options

abbrev inputs : DecideInputs
inputs = record {
  branch_strategy = some BranchStrategy.preview;
  canonical_branch = some (codes "main");
  channels = channels_input;
}

abbrev handed_on : Json
handed_on =
    obj (field (codes "tier") (str (codes "gated")) (field (codes "identity") (obj end) end))

abbrev parse_handed_on : Text → Option Json
parse_handed_on t = some handed_on
