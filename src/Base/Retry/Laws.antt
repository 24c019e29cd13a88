-- ===== src/Base/Retry/Laws.antt =====
-- What the course of `retry` has of its attempts.
use Prim.Native.Nat.{ℕ, suc, ◌+◌, ◌≤◌}
use mathlib.Core.Path.{◌≡◌, sym, subst, ◌∙◌}
use mathlib.Core.Bool.{Bool, false}
use native.Mathlib.Omega.{arith}
use postman_bootstrap_action.Base.Retry.{
  Tried, gave, threw, Tries, gives, refused, exhausted, again,
}

module _ {S E A : Type 0} (attempt : S → Tried E A × S) (should_retry : E → Bool) where
  -- What every attempt relates, if it is transitive.
  pub Tries-trans :
      (R : S → S → Type 0)
      → ((s t u : S) → R s t → R t u → R s u)
      → ((s : S) → R s ((attempt s).1))
      → {n : ℕ} {s : S} {r : Tried E A × S} → Tries attempt should_retry n s r
      → R s (r.1)
  Tries-trans R trans step (gives {s = s} e) = subst (λ z. R s (z.1)) e (step s)
  Tries-trans R trans step (refused {s = s} e stops) = subst (λ z. R s (z.1)) e (step s)
  Tries-trans R trans step (exhausted {s = s} e) = subst (λ z. R s (z.1)) e (step s)
  Tries-trans R trans step (again {s = s} e more rest) =
      trans s _ _ (subst (λ z. R s (z.1)) e (step s)) (Tries-trans R trans step rest)

  -- A quantity that an attempt raises by one at most.
  pub Tries-measure :
      (size : S → ℕ)
      → ((s : S) → size ((attempt s).1) ≤ suc (size s))
      → {n : ℕ} {s : S} {r : Tried E A × S} → Tries attempt should_retry n s r
      → size (r.1) ≤ n + size s
  Tries-measure size step (gives {s = s} e) =
      omega (arith, subst (λ z. size (z.1) ≤ suc (size s)) e (step s))
  Tries-measure size step (refused {s = s} e stops) =
      omega (arith, subst (λ z. size (z.1) ≤ suc (size s)) e (step s))
  Tries-measure size step (exhausted {s = s} e) =
      omega (arith, subst (λ z. size (z.1) ≤ suc (size s)) e (step s))
  Tries-measure size step (again {s = s} e more rest) =
      omega (arith, subst (λ z. size (z.1) ≤ suc (size s)) e (step s), Tries-measure size step rest)

  -- A value was given by an attempt, from the state of that moment.
  pub Tries-gave :
      {n : ℕ} {s : S} {r : Tried E A × S}
      → Tries attempt should_retry n s r
      → {a : A} → r.0 ≡ gave a
      → (before : S) × (attempt before ≡ r)
  Tries-gave (gives {s = s} e) h = (s, e)
  Tries-gave (refused e stops) h = absurd (cc)
  Tries-gave (exhausted e) h = absurd (cc)
  Tries-gave (again e more rest) h = Tries-gave rest h

  pub Tries-first_gave :
      {n : ℕ} {s t : S} {a : A} {r : Tried E A × S}
      → attempt s ≡ (gave a, t)
      → Tries attempt should_retry n s r
      → r ≡ (gave a, t)
  Tries-first_gave h (gives e) = sym e ∙ h
  Tries-first_gave h (refused e stops) = sym e ∙ h
  Tries-first_gave h (exhausted e) = sym e ∙ h
  Tries-first_gave h (again e more rest) = absurd (cc)

  -- An error that is not to be tried again is the end.
  pub Tries-first_refused :
      {n : ℕ} {s t : S} {failure : E} {r : Tried E A × S}
      → attempt s ≡ (threw failure, t)
      → should_retry failure ≡ false
      → Tries attempt should_retry n s r
      → r ≡ (threw failure, t)
  Tries-first_refused h stop (gives e) = sym e ∙ h
  Tries-first_refused h stop (refused e stops) = sym e ∙ h
  Tries-first_refused h stop (exhausted e) = sym e ∙ h
  Tries-first_refused h stop (again e more rest) = absurd (cc)
