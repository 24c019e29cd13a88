-- ===== src/Base/Retry.antt =====
-- `retry` of @postman-cs/automation-core, which is not part of this repository: an interface. An
-- attempt changes a state, and gives a value or throws an error.
pub mod Laws
use Prim.Native.Nat.{ℕ, zero, suc, ◌≤◌}
use mathlib.Core.Path.{◌≡◌, refl}
use mathlib.Core.Bool.{Bool, true, false}

pub data Tried {ℓ κ} (E : Type ℓ) (A : Type κ) : Type (ℓ ⊔ κ) where
  gave : A → Tried E A
  threw : E → Tried E A

module _ {ℓ κ μ} {E : Type ℓ} {A : Type κ} {B : Type μ} where
  infixl 5 ◌>>=◌
  -- An error ends a `do` block.
  abbrev pub ◌>>=◌ : Tried E A → (A → Tried E B) → Tried E B
  gave a >>= go = go a
  threw e >>= go = threw e

  pub >>=-eq-gave :
      (first : Tried E A) (go : A → Tried E B) {last : B}
      → (first >>= go) ≡ gave last
      → (a : A) × (first ≡ gave a) × (go a ≡ gave last)
  >>=-eq-gave (gave a) go same = (a, refl, same)
  >>=-eq-gave (threw e) go same = cc

pub gave-injective {ℓ κ} :
    {E : Type ℓ} {A : Type κ} {a b : A} → ◌≡◌ {A = Tried E A} (gave a) (gave b) → a ≡ b
gave-injective h = cc

-- The course of `retry` with so many attempts left: it ends with the first attempt that gives a
-- value, that throws an error that is not to be tried again, or that is the last.
pub data Tries {S E A : Type 0} (attempt : S → Tried E A × S) (should_retry : E → Bool)
    : ℕ → S → Tried E A × S → Type 0 where
  gives :
      {n : ℕ} {s t : S} {a : A}
      → attempt s ≡ (gave a, t)
      → Tries attempt should_retry (suc n) s (gave a, t)
  refused :
      {n : ℕ} {s t : S} {e : E}
      → attempt s ≡ (threw e, t)
      → should_retry e ≡ false
      → Tries attempt should_retry (suc n) s (threw e, t)
  exhausted :
      {s t : S} {e : E}
      → attempt s ≡ (threw e, t)
      → Tries attempt should_retry (suc zero) s (threw e, t)
  again :
      {n : ℕ} {s t : S} {e : E} {r : Tried E A × S}
      → attempt s ≡ (threw e, t)
      → should_retry e ≡ true
      → Tries attempt should_retry (suc n) t r
      → Tries attempt should_retry (suc (suc n)) s r

-- The documented behaviour: with one attempt or more, `retry` returns, and does so along `Tries`.
pub record Retry (S E : Type 0) : Type 1 where
  pub run : {A : Type 0} → ℕ → (E → Bool) → (S → Tried E A × S) → S → Tried E A × S
  pub run_tries :
      {A : Type 0} (n : ℕ) (should_retry : E → Bool) (attempt : S → Tried E A × S) (s : S)
      → 1 ≤ n
      → Tries attempt should_retry n s (run n should_retry attempt s)
