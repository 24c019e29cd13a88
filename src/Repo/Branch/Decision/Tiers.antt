-- ===== src/Repo/Branch/Decision/Tiers.antt =====
-- The tier of a run against a declarative description of the tiers.
use postman_bootstrap_action.Base.{
  true, false, ◌∷◌, Option, none, some, [], Text, Text-discrete, ◌≡◌, ◌≢◌, ◌↔◌, ◌⊎◌, refl, subst,
  arith, Option-cases, Bool-cases, inl, inr,
}
use postman_bootstrap_action.Repo.Branch.{
  BranchTier, BranchStrategy, ChannelRule, Result, ok, err, or_blank,
}
use postman_bootstrap_action.Repo.Branch.Channels.{match_channel}
use postman_bootstrap_action.Repo.Branch.Channels.Laws.{
  IsFirstMatch, NoneMatches, match_channel-IsFirstMatch, match_channel-none,
}
use postman_bootstrap_action.Repo.Branch.Decision.{
  BranchDecision, ResolveDecisionOptions, or_empty, canonical_of, is_legacy, lacks_branch,
  classify_other, classify_head, classify, resolve_branch_decision,
}

-- A branch is known, and so is the canonical one; `c` and `h` are their names.
pub record OnBranch (o : ResolveDecisionOptions) (c h : Text) : Type 0 where
  pub aware : o.strategy ≢ BranchStrategy.legacy
  pub known : canonical_of o ≡ some c
  pub known_ne : c ≢ []
  pub kind : lacks_branch o.identity.ref_kind ≡ false
  pub headed : o.identity.head_branch ≡ some h
  pub headed_ne : h ≢ []

-- What the file's header says of each tier.
pub data HasTier (o : ResolveDecisionOptions) : BranchTier → Type 0 where
  legacy : o.strategy ≡ BranchStrategy.legacy → HasTier o BranchTier.legacy
  no_branch :
      {c : Text}
      → o.strategy ≢ BranchStrategy.legacy
      → canonical_of o ≡ some c
      → c ≢ []
      → (lacks_branch o.identity.ref_kind ≡ true) ⊎ (or_blank o.identity.head_branch ≡ [])
      → HasTier o BranchTier.gated
  canonical : {c : Text} → OnBranch o c c → HasTier o BranchTier.canonical
  channel :
      {c h : Text} {rule : ChannelRule}
      → OnBranch o c h
      → h ≢ c
      → IsFirstMatch h (or_empty o.channels) rule
      → HasTier o BranchTier.channel
  preview :
      {c h : Text}
      → OnBranch o c h
      → h ≢ c
      → NoneMatches h (or_empty o.channels)
      → o.strategy ≡ BranchStrategy.preview
      → o.identity.is_fork_pr ≡ false
      → HasTier o BranchTier.preview
  fork :
      {c h : Text}
      → OnBranch o c h
      → h ≢ c
      → NoneMatches h (or_empty o.channels)
      → o.strategy ≡ BranchStrategy.preview
      → o.identity.is_fork_pr ≡ true
      → HasTier o BranchTier.gated
  publish_gate :
      {c h : Text}
      → OnBranch o c h
      → h ≢ c
      → NoneMatches h (or_empty o.channels)
      → o.strategy ≡ BranchStrategy.publish_gate
      → HasTier o BranchTier.gated

abbrev pub tier_of : Result BranchDecision → Option BranchTier
tier_of (ok d) = some d.tier
tier_of (err e) = none

-- Each step of the classification, with the tier that it gives named.
module _ {o : ResolveDecisionOptions} {c h : Text} (b : OnBranch o c h) (t : BranchTier) where
  classify_other_sound :
      (s : BranchStrategy)
      → o.strategy ≡ s
      → h ≢ c
      → NoneMatches h (or_empty o.channels)
      → (classify_other o s c h).tier ≡ t
      → HasTier o t
  unfolding classify_other
  classify_other_sound BranchStrategy.preview same differ miss e =
      elim (Bool-cases o.identity.is_fork_pr) [
        | inl f ↦
            let gated : BranchTier.gated ≡ t = ground arith in
            subst (HasTier o) gated (fork b differ miss same f)
        | inr n ↦
            let shown : BranchTier.preview ≡ t = ground arith in
            subst (HasTier o) shown (preview b differ miss same n)
      ]
  classify_other_sound BranchStrategy.legacy same differ miss e = absurd (b.aware same)
  classify_other_sound BranchStrategy.publish_gate same differ miss e =
      subst (HasTier o) e (publish_gate b differ miss same)

  classify_head_sound : (classify_head o c h).tier ≡ t → HasTier o t
  unfolding classify_head
  classify_head_sound e = elim (Text-discrete h c) [
    | yes same ↦
        let equal : BranchTier.canonical ≡ t = ground arith in
        subst (HasTier o) equal (canonical (subst (OnBranch o c) same b))
    | no differ ↦ elim (Option-cases (match_channel h (or_empty o.channels))) [
      | inl miss ↦
          classify_other_sound o.strategy refl differ ((match_channel-none h _).0 miss)
            (ground arith)
      | inr (rule, hit) ↦
          let matched : BranchTier.channel ≡ t = ground arith in
          subst (HasTier o) matched (channel b differ ((match_channel-IsFirstMatch h _ rule).0 hit))
    ]
  ]

module _ {o : ResolveDecisionOptions} {c : Text} (t : BranchTier)
    (aware : o.strategy ≢ BranchStrategy.legacy) (known : canonical_of o ≡ some c)
    (known_ne : c ≢ []) where
  gated_sound :
      (lacks_branch o.identity.ref_kind ≡ true) ⊎ (or_blank o.identity.head_branch ≡ [])
      → BranchTier.gated ≡ t
      → HasTier o t
  gated_sound why e = subst (HasTier o) e (no_branch aware known known_ne why)

  classify_sound : (classify o c).tier ≡ t → HasTier o t
  unfolding classify
  classify_sound e = elim (Bool-cases (lacks_branch o.identity.ref_kind)) [
    | inl lacks ↦ gated_sound (inl lacks) (ground arith)
    | inr kind ↦ elim (Option-cases o.identity.head_branch) [
      | inl headless ↦ gated_sound (inr (ground arith)) (ground arith)
      | inr ([], blank) ↦ gated_sound (inr (ground arith)) (ground arith)
      | inr (u ∷ h, headed) ↦
          let b : OnBranch o c (u ∷ h) = record {
            aware = aware;
            known = known;
            known_ne = known_ne;
            kind = kind;
            headed = headed;
            headed_ne = ground arith;
          } in
          classify_head_sound b t (ground arith)
    ]
  ]

resolve_sound :
    (o : ResolveDecisionOptions) (t : BranchTier)
    → tier_of (resolve_branch_decision o) ≡ some t
    → HasTier o t
unfolding resolve_branch_decision
resolve_sound o t e = elim (Bool-cases (is_legacy o.strategy)) [
  | inl blind ↦
      let same : BranchTier.legacy ≡ t = ground arith in
      subst (HasTier o) same (legacy (ground arith))
  | inr aware ↦ elim (Option-cases (canonical_of o)) [
    | inl missing ↦ absurd (ground arith)
    | inr ([], missing) ↦ absurd (ground arith)
    | inr (u ∷ c, known) ↦ classify_sound t (ground arith) known (ground arith) (ground arith)
  ]
]

resolve_complete :
    {o : ResolveDecisionOptions} {t : BranchTier}
    → HasTier o t
    → tier_of (resolve_branch_decision o) ≡ some t
unfolding resolve_branch_decision classify classify_head classify_other
resolve_complete (legacy e) = ground arith
resolve_complete (no_branch a k n w) = ground arith
resolve_complete (canonical b) = ground (arith, b)
resolve_complete {o} (channel {h} {rule} b d m) =
    ground (arith, b, (match_channel-IsFirstMatch h (or_empty o.channels) rule).1 m)
resolve_complete {o} (preview {h} b d m s f) =
    ground (arith, b, (match_channel-none h (or_empty o.channels)).1 m)
resolve_complete {o} (fork {h} b d m s f) =
    ground (arith, b, (match_channel-none h (or_empty o.channels)).1 m)
resolve_complete {o} (publish_gate {h} b d m s) =
    ground (arith, b, (match_channel-none h (or_empty o.channels)).1 m)

-- The decision has a tier exactly as the description says: legacy; gated without a branch; canonical
-- on the canonical branch; channel by the first rule that matches; preview or gated otherwise, by
-- the strategy and by whether the pull request comes from a fork.
pub resolve_branch_decision-HasTier :
    (o : ResolveDecisionOptions) (t : BranchTier)
    → (tier_of (resolve_branch_decision o) ≡ some t) ↔ HasTier o t
resolve_branch_decision-HasTier o t = (resolve_sound o t, resolve_complete)
