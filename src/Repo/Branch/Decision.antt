-- ===== src/Repo/Branch/Decision.antt =====
-- src/lib/repo/branch-decision.ts: the classification of a run into a tier.
pub mod Canonical
pub mod Tiers
use postman_bootstrap_action.Base.{
  Bool, true, false, Option, none, some, List, [], Text, Text-discrete, ◌===◌, is_empty, or_else,
  if◌then◌else◌,
}
use postman_bootstrap_action.Repo.Branch.{
  BranchTier, BranchStrategy, RefKind, BranchIdentity, ChannelRule, Result, ok, err,
  default_branch_unresolved, clean, or_blank,
}
use postman_bootstrap_action.Repo.Branch.Channels.{match_channel}

-- The sentence of the classification, as the values that it is made from.
pub data Reason : Type 0 where
  branch_blind : Reason
  ref_kind_ineligible : RefKind → Reason
  equals_canonical : Text → Reason
  matches_channel : Text → ChannelRule → Reason
  fork_ineligible : Reason
  under_preview : Text → Reason
  under_publish_gate : Text → Reason

pub record BranchDecision : Type 0 where
  pub tier : BranchTier
  pub strategy : BranchStrategy
  pub identity : BranchIdentity
  pub canonical_branch : Option Text
  pub channel : Option ChannelRule
  pub reason : Reason

pub record ResolveDecisionOptions : Type 0 where
  pub strategy : BranchStrategy
  pub identity : BranchIdentity
  pub canonical_branch : Option Text
  pub channels : Option (List ChannelRule)

abbrev pub or_empty : Option (List ChannelRule) → List ChannelRule
or_empty none = []
or_empty (some rules) = rules

-- `clean(options.canonicalBranch) ?? identity.defaultBranch`
unfoldable pub canonical_of : ResolveDecisionOptions → Option Text
canonical_of o = or_else (clean o.canonical_branch) o.identity.default_branch

abbrev pub decision :
    ResolveDecisionOptions → BranchTier → Option Text → Option ChannelRule → Reason → BranchDecision
decision o t canonical ch why = record {
  tier = t;
  strategy = o.strategy;
  identity = o.identity;
  canonical_branch = canonical;
  channel = ch;
  reason = why;
}

abbrev pub lacks_branch : RefKind → Bool
lacks_branch RefKind.tag = true
lacks_branch RefKind.unknown = true
lacks_branch _ = false

-- The last tests, of a branch that is neither canonical nor a channel.
unfoldable pub classify_other :
    ResolveDecisionOptions → BranchStrategy → Text → Text → BranchDecision
classify_other o BranchStrategy.preview c head =
    if o.identity.is_fork_pr
    then decision o BranchTier.gated (some c) none fork_ineligible
    else decision o BranchTier.preview (some c) none (under_preview head)
classify_other o _ c head = decision o BranchTier.gated (some c) none (under_publish_gate head)

-- The tests that follow the canonical branch's, `c`, of a head branch that is not empty.
unfoldable pub classify_head : ResolveDecisionOptions → Text → Text → BranchDecision
classify_head o c head =
    if head === c
    then decision o BranchTier.canonical (some c) none (equals_canonical c)
    else elim (match_channel head (or_empty o.channels)) [
      | some rule ↦ decision o BranchTier.channel (some c) (some rule) (matches_channel head rule)
      | none ↦ classify_other o o.strategy c head
    ]

unfoldable pub classify : ResolveDecisionOptions → Text → BranchDecision
classify o c =
    if lacks_branch o.identity.ref_kind
    then decision o BranchTier.gated (some c) none (ref_kind_ineligible o.identity.ref_kind)
    else if is_empty (or_blank o.identity.head_branch)
    then decision o BranchTier.gated (some c) none (ref_kind_ineligible o.identity.ref_kind)
    else classify_head o c (or_blank o.identity.head_branch)

abbrev pub is_legacy : BranchStrategy → Bool
is_legacy BranchStrategy.legacy = true
is_legacy _ = false

-- A canonical branch that is absent or empty is refused.
unfoldable pub resolve_branch_decision : ResolveDecisionOptions → Result BranchDecision
resolve_branch_decision o =
    if is_legacy o.strategy
    then ok (decision o BranchTier.legacy (canonical_of o) none branch_blind)
    else if is_empty (or_blank (canonical_of o))
    then err default_branch_unresolved
    else ok (classify o (or_blank (canonical_of o)))
