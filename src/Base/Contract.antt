-- ===== src/Base/Contract.antt =====
-- The errors that carry a `CONTRACT_…` code, by their codes; their messages are left out. A function
-- that throws returns a result.
use mathlib.Core.Path.{◌≡◌, refl, subst}

pub data ContractCode : Type 0 where
  channels_input_invalid default_branch_unresolved branch_decision_invalid : ContractCode
  definition_inventory_invalid spec_path_escape ref_depth_exceeded definition_duplicate_path
        definition_encoding_invalid ref_size_exceeded ref_count_exceeded definition_root_mismatch :
      ContractCode
  spec_root_path_change_unsupported definition_closure_incomplete unsupported_openapi_version :
      ContractCode
  ref_limit_exceeded spec_fetch_blocked spec_fetch_failed : ContractCode
  -- Not a code: any error that has none.
  uncoded : ContractCode

pub data Result {ℓ} (A : Type ℓ) : Type ℓ where
  ok : A → Result A
  err : ContractCode → Result A

module _ {ℓ κ} {A : Type ℓ} {B : Type κ} where
  -- What a caller does with a result: go on with the value, or stop on the error.
  abbrev pub settle : Result A → (A → B) → (ContractCode → B) → B
  settle (ok a) go on_error = go a
  settle (err code) go on_error = on_error code

  infixl 5 ◌>>=◌
  -- An error ends a `do` block.
  abbrev pub ◌>>=◌ : Result A → (A → Result B) → Result B
  ok a >>= go = go a
  err code >>= go = err code

  -- A block that succeeds did so step by step.
  pub >>=-eq-ok :
      (first : Result A) (go : A → Result B) {last : B}
      → (first >>= go) ≡ ok last
      → (a : A) × (first ≡ ok a) × (go a ≡ ok last)
  >>=-eq-ok (ok a) go same = (a, refl, same)
  >>=-eq-ok (err code) go same = cc

-- What holds of the value of a result that has one.
abbrev pub Ensures {ℓ κ} : {A : Type ℓ} → (A → Type κ) → Result A → Type κ
Ensures P (ok a) = P a
Ensures P (err code) = Unit

module _ {ℓ κ} {A : Type ℓ} (P : A → Type κ) where
  pub Ensures-ok : {m : Result A} {a : A} → Ensures P m → m ≡ ok a → P a
  Ensures-ok h same = subst (Ensures P) same h

  pub >>=-Ensures {μ} :
      {C : Type μ} (m : Result C) (go : C → Result A)
      → ((c : C) → Ensures P (go c))
      → Ensures P (m >>= go)
  >>=-Ensures (ok c) go h = h c
  >>=-Ensures (err code) go h = tt

  pub settle-both {μ ν} :
      {B : Type μ} (Q : B → Type ν) (m : Result A) {go : A → B} {on_error : ContractCode → B}
      → Ensures P m
      → ((a : A) → P a → Q (go a))
      → ((code : ContractCode) → Q (on_error code))
      → Q (settle m go on_error)
  settle-both Q (ok a) given h k = h a given
  settle-both Q (err code) given h k = k code
