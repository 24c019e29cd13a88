-- ===== src/Base/Tables.antt =====
-- Tests of every number of 8 or of 16 bits, by evaluation.
use Prim.Native.Nat.{ℕ, zero, suc, ◌+◌, ◌*◌, ◌/◌, ◌%◌, ◌<◌}
use mathlib.Core.Path.{◌≡◌, refl, subst}
use mathlib.Core.Bool.{Bool, true, false, ◌&&◌}
use native.Mathlib.Omega.{arith}

-- A test holds of every number below the bound.
abbrev check_below : ℕ → (ℕ → Bool) → Bool
check_below zero test = true
check_below (suc n) test = test n && check_below n test

check_below_at :
    (n : ℕ) (test : ℕ → Bool) (x : ℕ) → check_below n test ≡ true → x < n → test x ≡ true
check_below_at zero test x h below = absurd (omega arith)
check_below_at (suc n) test x h below = ground (arith, check_below_at n test x)

abbrev pub check_bytes : (ℕ → Bool) → Bool
check_bytes test = check_below 256 test

abbrev pub check_words : (ℕ → Bool) → Bool
check_words test = check_below 256 (λ h. check_below 256 (λ l. test (h * 256 + l)))

pub check_bytes_at : (test : ℕ → Bool) (x : ℕ) → check_bytes test ≡ true → x < 256 → test x ≡ true
check_bytes_at test x h below = check_below_at 256 test x h below

pub check_words_at : (test : ℕ → Bool) (x : ℕ) → check_words test ≡ true → x < 65536 → test x ≡ true
check_words_at test x h below =
    let split : x / 256 * 256 + x % 256 ≡ x = omega arith in
    subst (λ z. test z ≡ true) split
      (check_below_at 256 (λ l. test (x / 256 * 256 + l)) (x % 256)
        (check_below_at 256 (λ k. check_below 256 (λ l. test (k * 256 + l))) (x / 256) h
          (omega arith))
        (omega arith))

-- Two tests come out alike.
abbrev pub same : Bool → Bool → Bool
same true b = b
same false true = false
same false false = true

pub same_eq : (a b : Bool) → same a b ≡ true → a ≡ b
same_eq true true h = refl
same_eq true false h = absurd (cc)
same_eq false true h = absurd (cc)
same_eq false false h = refl
