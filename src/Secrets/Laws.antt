-- ===== src/Secrets/Laws.antt =====
-- What redaction removes (src/lib/secrets.ts, redactSecrets).
use postman_bootstrap_action.Base.{
  ℕ, zero, suc, ◌-◌, Bool, true, false, not, ◌&&◌, ◌||◌, List, [], ◌∷◌, ◌++◌, Text, ◌==◌, is_empty,
  starts_with, includes, replace_from, replace_all, length, any, All, ◌≡◌, refl, sym, subst, ◌∙◌,
  inl, inr, Bool-cases, if-both, if◌then◌else◌, arith,
}
use postman_bootstrap_action.Base.Json.{Json}
use postman_bootstrap_action.Secrets.{normalize_secret_values, redact_each, redact_secrets}

-- The replacement does not have the first unit of the secret, nor the secret that of the replacement,
-- and neither is empty.
abbrev pub is_apart : Text → Text → Bool
is_apart (d ∷ r) (c ∷ s) = not (any (λ x. x == c) (d ∷ r)) && not (any (λ x. x == d) (c ∷ s))
is_apart _ _ = false

starts_with-fresh :
    (d : ℕ) (y : ℕ) (p u : Text)
    → any (λ x. x == d) (y ∷ p) ≡ false
    → starts_with (y ∷ p) (d ∷ u) ≡ false
unfolding starts_with
starts_with-fresh d y p u h = ground arith

includes-skip :
    (c : ℕ) (s q u : Text)
    → any (λ x. x == c) q ≡ false
    → includes (c ∷ s) (q ++ u) ≡ includes (c ∷ s) u
unfolding includes starts_with
includes-skip c s [] u h = refl
includes-skip c s (x ∷ q) u h = ground (arith, includes-skip c s q u)

module _ (s : Text) (d : ℕ) (r : Text) where
  -- A text without the replacement's first unit begins the new text only if it begins the old one.
  starts_with-replace_from :
      (p t : Text)
      → any (λ x. x == d) p ≡ false
      → starts_with p (replace_from s (d ∷ r) zero t) ≡ true
      → starts_with p t ≡ true
  unfolding starts_with replace_from
  starts_with-replace_from [] t h g = refl
  starts_with-replace_from (y ∷ p) [] h g = g
  starts_with-replace_from (y ∷ p) (x ∷ t) h g = elim (Bool-cases (starts_with s (x ∷ t))) [
    | inl found ↦ absurd (ground arith)
    | inr other ↦ ground (arith, starts_with-replace_from p t)
  ]

  replace_from-found :
      (x : ℕ) (t : Text)
      → starts_with s (x ∷ t) ≡ true
      → replace_from s (d ∷ r) zero (x ∷ t) ≡ (d ∷ r) ++ replace_from s (d ∷ r) (length s - 1) t
  unfolding replace_from
  replace_from-found x t found = rw (replace_from, found) refl

  replace_from-other :
      (x : ℕ) (t : Text)
      → starts_with s (x ∷ t) ≡ false
      → replace_from s (d ∷ r) zero (x ∷ t) ≡ x ∷ replace_from s (d ∷ r) zero t
  unfolding replace_from
  replace_from-other x t other = rw (replace_from, other) refl

  -- The same for a text that begins with the next unit.
  starts_with-replace_cons :
      (p : Text) (x : ℕ) (t : Text)
      → any (λ y. y == d) p ≡ false
      → starts_with p (x ∷ replace_from s (d ∷ r) zero t) ≡ true
      → starts_with p (x ∷ t) ≡ true
  unfolding starts_with
  starts_with-replace_cons [] x t h g = refl
  starts_with-replace_cons (y ∷ p) x t h g = ground (arith, starts_with-replace_from p t)

  -- Replacing one secret by text that is apart from another brings no other into the text.
  includes-replace_from :
      (c : ℕ) (q : Text) (k : ℕ) (t : Text)
      → is_apart (d ∷ r) (c ∷ q) ≡ true
      → includes (c ∷ q) (replace_from s (d ∷ r) k t) ≡ true
      → includes (c ∷ q) t ≡ true
  unfolding replace_from includes
  includes-replace_from c q k [] h g = g
  includes-replace_from c q (suc k) (x ∷ t) h g = ground (arith, includes-replace_from c q k t h g)
  includes-replace_from c q zero (x ∷ t) h g = elim (Bool-cases (starts_with s (x ∷ t))) [
    | inl found ↦
        let inside : includes (c ∷ q) ((d ∷ r) ++ replace_from s (d ∷ r) (length s - 1) t) ≡ true =
          subst (λ z. includes (c ∷ q) z ≡ true) (replace_from-found x t found) g in
        let fresh : any (λ z. z == c) (d ∷ r) ≡ false = ground arith in
        let rest : includes (c ∷ q) t ≡ true =
          includes-replace_from c q (length s - 1) t h
            (sym (includes-skip c q (d ∷ r) _ fresh) ∙ inside) in
        ground arith
    | inr other ↦
        let inside : includes (c ∷ q) (x ∷ replace_from s (d ∷ r) zero t) ≡ true =
          subst (λ z. includes (c ∷ q) z ≡ true) (replace_from-other x t other) g in
        let fresh : any (λ z. z == d) (c ∷ q) ≡ false = ground arith in
        elim (Bool-cases (starts_with (c ∷ q) (x ∷ replace_from s (d ∷ r) zero t))) [
          | inl begins ↦
              let kept : starts_with (c ∷ q) (x ∷ t) ≡ true =
                starts_with-replace_cons (c ∷ q) x t fresh begins in
              rw kept refl
          | inr later ↦
              let rest : includes (c ∷ q) t ≡ true =
                includes-replace_from c q zero t h (ground arith) in
              rw rest (ground arith)
        ]
  ]

-- No occurrence of a secret is left.
replace_from-gone :
    (c : ℕ) (q : Text) (d : ℕ) (r : Text) (k : ℕ) (t : Text)
    → is_apart (d ∷ r) (c ∷ q) ≡ true
    → includes (c ∷ q) (replace_from (c ∷ q) (d ∷ r) k t) ≡ false
unfolding replace_from includes
replace_from-gone c q d r k [] h = refl
replace_from-gone c q d r (suc k) (x ∷ t) h = replace_from-gone c q d r k t h
replace_from-gone c q d r zero (x ∷ t) h = elim (Bool-cases (starts_with (c ∷ q) (x ∷ t))) [
  | inl found ↦
      let fresh : any (λ z. z == c) (d ∷ r) ≡ false = ground arith in
      subst (λ z. includes (c ∷ q) z ≡ false) (sym (replace_from-found (c ∷ q) d r x t found))
        (includes-skip c q (d ∷ r) _ fresh ∙ replace_from-gone c q d r (length (c ∷ q) - 1) t h)
  | inr other ↦
      let fresh : any (λ z. z == d) (c ∷ q) ≡ false = ground arith in
      subst (λ z. includes (c ∷ q) z ≡ false) (sym (replace_from-other (c ∷ q) d r x t other))
        (let rest : includes (c ∷ q) (replace_from (c ∷ q) (d ∷ r) zero t) ≡ false =
            replace_from-gone c q d r zero t h in
          elim (Bool-cases (starts_with (c ∷ q) (x ∷ replace_from (c ∷ q) (d ∷ r) zero t))) [
            | inl begins ↦
                let back : starts_with (c ∷ q) (x ∷ t) ≡ true =
                  starts_with-replace_cons (c ∷ q) d r (c ∷ q) x t fresh begins in
                absurd (cc)
            | inr never ↦ rw never rest
          ])
]

-- What is not in a text is not brought in, and what is replaced is gone.
replace_all-keeps :
    (replacement s u t : Text)
    → is_apart replacement u ≡ true
    → includes u t ≡ false
    → includes u (replace_all s replacement t) ≡ false
unfolding replace_all
replace_all-keeps [] s u t h g = absurd (cc)
replace_all-keeps (d ∷ r) s [] t h g = absurd (cc)
replace_all-keeps (d ∷ r) s (c ∷ q) t h g =
    elim (Bool-cases (includes (c ∷ q) (replace_from s (d ∷ r) zero t))) [
      | inl inside ↦
          let before : includes (c ∷ q) t ≡ true =
            includes-replace_from s d r c q zero t h inside in
          absurd (cc)
      | inr outside ↦ outside
    ]

replace_all-gone :
    (replacement s t : Text)
    → is_apart replacement s ≡ true
    → includes s (replace_all s replacement t) ≡ false
unfolding replace_all
replace_all-gone [] s t h = absurd (cc)
replace_all-gone (d ∷ r) [] t h = absurd (cc)
replace_all-gone (d ∷ r) (c ∷ q) t h = replace_from-gone c q d r zero t h

is_apart-given : (r s : Text) → is_apart r s ≡ true → is_empty s ≡ false
is_apart-given [] s h = absurd (cc)
is_apart-given (d ∷ r) [] h = absurd (cc)
is_apart-given (d ∷ r) (c ∷ s) h = refl

abbrev pub AreApart : Text → List Text → Type 0
AreApart replacement = All (λ s. is_apart replacement s ≡ true)

-- None of the secrets is in the text.
abbrev pub AreAbsent : Text → List Text → Type 0
AreAbsent t = All (λ s. includes s t ≡ false)

redact_each-keeps :
    (replacement u : Text) (ss : List Text) (t : Text)
    → AreApart replacement ss
    → is_apart replacement u ≡ true
    → includes u t ≡ false
    → includes u (redact_each replacement ss t) ≡ false
unfolding redact_each
redact_each-keeps replacement u [] t h a g = g
redact_each-keeps replacement u (s ∷ ss) t (b, h) a g =
    redact_each-keeps replacement u ss _ h a
      (if-both (λ z. includes u z ≡ false) (is_empty s) g (replace_all-keeps replacement s u t a g))

redact_each-AreAbsent :
    (replacement : Text) (ss : List Text) (t : Text)
    → AreApart replacement ss
    → AreAbsent (redact_each replacement ss t) ss
unfolding redact_each
redact_each-AreAbsent replacement [] t h = tt
redact_each-AreAbsent replacement (s ∷ ss) t (a, h) = (
  rw (is_apart-given replacement s a)
      (redact_each-keeps replacement s ss _ h a (replace_all-gone replacement s t a)),
  redact_each-AreAbsent replacement ss _ h,
)

includes-empty : (r : Text) (ss : List Text) → AreApart r ss → AreAbsent [] ss
unfolding includes
includes-empty r [] h = tt
includes-empty r (s ∷ ss) (a, h) = (is_apart-given r s a, includes-empty r ss h)

redacted-AreAbsent :
    (replacement : Text) (ss : List Text) (t : Text)
    → AreApart replacement ss
    → AreAbsent (if is_empty t || is_empty ss then t else redact_each replacement ss t) ss
redacted-AreAbsent replacement ss [] h = includes-empty replacement ss h
redacted-AreAbsent replacement [] (c ∷ t) h = tt
redacted-AreAbsent replacement (s ∷ ss) (c ∷ t) h =
    redact_each-AreAbsent replacement (s ∷ ss) (c ∷ t) h

-- None of the secrets occurs in a text that was redacted. Given that each secret is apart from the
-- replacement: its first unit is not in the replacement, and the replacement's first unit is not in
-- it.
pub redact_secrets-AreAbsent :
    (input : Text) (secrets : Json) (replacement : Text)
    → AreApart replacement (normalize_secret_values secrets)
    → AreAbsent (redact_secrets input secrets replacement) (normalize_secret_values secrets)
unfolding redact_secrets
redact_secrets-AreAbsent input secrets replacement h =
    redacted-AreAbsent replacement (normalize_secret_values secrets) input h
