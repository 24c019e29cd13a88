-- ===== src/Repo/Branch/Decision/Canonical.antt =====
-- Which branch is canonical, and the failure of a run that knows none (src/lib/repo/branch-decision.ts,
-- resolveBranchDecision).
use postman_bootstrap_action.Base.{
  Option, none, some, [], ◌∷◌, Text, trim, or_else, ◌≡◌, ◌≢◌, ◌↔◌, refl, sym, ap, subst, ◌∙◌, ◌⊎◌,
  Text-discrete, drop_while, drop_last_while, arith, Option-cases, inl, inr,
}
use postman_bootstrap_action.Repo.Branch.{
  BranchStrategy, ok, err, default_branch_unresolved, clean, nonempty, or_blank,
}
use postman_bootstrap_action.Repo.Branch.Decision.{
  BranchDecision, ResolveDecisionOptions, canonical_of, classify, classify_head, classify_other,
  resolve_branch_decision,
}

-- The canonical branch is the input, trimmed; where nothing is left of it, or none is given, it is the
-- default branch of the repository. Neither is empty.
pub data IsCanonical (o : ResolveDecisionOptions) : Text → Type 0 where
  given : {raw : Text} → o.canonical_branch ≡ some raw → trim raw ≢ [] → IsCanonical o (trim raw)
  default :
      {c : Text}
      → ((raw : Text) → o.canonical_branch ≡ some raw → trim raw ≡ [])
      → o.identity.default_branch ≡ some c
      → c ≢ []
      → IsCanonical o c

some_same : {a b : Text} → some a ≡ some b → a ≡ b
some_same h = cc

nonempty-some : (t : Text) → t ≢ [] → nonempty t ≡ some t
nonempty-some [] h = absurd (h refl)
nonempty-some (c ∷ t) h = refl

clean_filled : (raw : Text) → trim raw ≢ [] → clean (some raw) ≡ some (trim raw)
unfolding clean
clean_filled raw h = nonempty-some (trim raw) h

trim-none : trim [] ≡ []
unfolding trim drop_while drop_last_while
trim-none = refl

clean_blank : (o : Option Text) → ((raw : Text) → o ≡ some raw → trim raw ≡ []) → clean o ≡ none
unfolding clean
clean_blank none h = ap nonempty trim-none
clean_blank (some raw) h = ap nonempty (h raw refl)

canonical_of_sound :
    {o : ResolveDecisionOptions} {c : Text} → IsCanonical o c → canonical_of o ≡ some c
unfolding canonical_of
canonical_of_sound {o} (given {raw} same filled) =
    ap (λ b. or_else (clean b) o.identity.default_branch) same
    ∙ ap (λ b. or_else b o.identity.default_branch) (clean_filled raw filled)
canonical_of_sound {o} (default blank known filled) =
    ap (λ b. or_else b o.identity.default_branch) (clean_blank o.canonical_branch blank) ∙ known

IsCanonical-filled : {o : ResolveDecisionOptions} {c : Text} → IsCanonical o c → c ≢ []
IsCanonical-filled (given same filled) = filled
IsCanonical-filled (default blank known filled) = filled

-- Whether something is left of the input.
blank_or_filled :
    (o : Option Text)
    → ((raw : Text) → o ≡ some raw → trim raw ≡ [])
      ⊎ ((raw : Text) × ((o ≡ some raw) × (trim raw ≢ [])))
blank_or_filled none = inl (λ raw same. cc)
blank_or_filled (some raw) = elim (Text-discrete (trim raw) []) [
  | yes blank ↦ inl (λ other same. ap trim (some_same (sym same)) ∙ blank)
  | no filled ↦ inr (raw, (refl, filled))
]

canonical_of_complete :
    (o : ResolveDecisionOptions) (c : Text) → canonical_of o ≡ some c → c ≢ [] → IsCanonical o c
unfolding canonical_of
canonical_of_complete o c known filled = elim (blank_or_filled o.canonical_branch) [
  | inl blank ↦
      default blank
        (sym (ap (λ b. or_else b o.identity.default_branch) (clean_blank o.canonical_branch blank))
          ∙ known)
        filled
  | inr (raw, (same, rest)) ↦
      let chosen : IsCanonical o (trim raw) = given same rest in
      subst (IsCanonical o) (some_same (sym (canonical_of_sound chosen) ∙ known)) chosen
]

resolve-blank :
    (o : ResolveDecisionOptions)
    → (resolve_branch_decision o ≡ err default_branch_unresolved)
      ↔ ((o.strategy ≢ BranchStrategy.legacy) × (or_blank (canonical_of o) ≡ []))
unfolding resolve_branch_decision
resolve-blank o = ground arith

none_known :
    (o : ResolveDecisionOptions)
    → (or_blank (canonical_of o) ≡ []) ↔ ((c : Text) → ¬ IsCanonical o c)
none_known o = (
  (λ blank c known.
      IsCanonical-filled known (sym (ap or_blank (canonical_of_sound known)) ∙ blank)),
  λ unknown. elim (Option-cases (canonical_of o)) [
    | inl missing ↦ ap or_blank missing
    | inr (c, known) ↦ elim (Text-discrete c []) [
      | yes blank ↦ ap or_blank known ∙ blank
      | no filled ↦ absurd (unknown c (canonical_of_complete o c known filled))
    ]
  ],
)

classify-canonical :
    (o : ResolveDecisionOptions) (c : Text) → (classify o c).canonical_branch ≡ some c
unfolding classify classify_head classify_other
classify-canonical o c = ground arith

-- What is recorded of a decision that is not blind to branches.
resolve-canonical :
    (o : ResolveDecisionOptions) (d : BranchDecision)
    → o.strategy ≢ BranchStrategy.legacy
    → resolve_branch_decision o ≡ ok d
    → (c : Text) × (IsCanonical o c × (d.canonical_branch ≡ some c))
unfolding resolve_branch_decision
resolve-canonical o d aware made = elim (Option-cases (canonical_of o)) [
  | inl missing ↦ absurd (ground arith)
  | inr ([], blank) ↦ absurd (ground arith)
  | inr (u ∷ c, known) ↦
      let named : classify o (u ∷ c) ≡ d = ground arith in
      (
        u ∷ c,
        (
          canonical_of_complete o (u ∷ c) known (ground arith),
          sym (ap (λ (e : BranchDecision). e.canonical_branch) named)
              ∙ classify-canonical o (u ∷ c),
        ),
      )
]

-- Under a strategy that is aware of branches, the decision fails, with the error that the default
-- branch is unresolved, exactly if no branch is canonical; a decision that is made records the
-- canonical branch. That is the trimmed input, or, where nothing is left of it, the default branch,
-- unless it is empty.
pub resolve_branch_decision-err :
    (o : ResolveDecisionOptions)
    → ((resolve_branch_decision o ≡ err default_branch_unresolved)
        ↔ ((o.strategy ≢ BranchStrategy.legacy) × ((c : Text) → ¬ IsCanonical o c)))
      × ((d : BranchDecision)
          → o.strategy ≢ BranchStrategy.legacy
          → resolve_branch_decision o ≡ ok d
          → (c : Text) × (IsCanonical o c × (d.canonical_branch ≡ some c)))
resolve_branch_decision-err o =
    let (failed, fails) = resolve-blank o in
    let (blank, unknown) = none_known o in
    (
      ((λ e. ((failed e).0, blank ((failed e).1))), (λ h. fails (h.0, unknown (h.1)))),
      resolve-canonical o,
    )
