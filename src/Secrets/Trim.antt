-- ===== src/Secrets/Trim.antt =====
-- A text that was trimmed is trimmed (`String.prototype.trim`).
use postman_bootstrap_action.Base.{
  ℕ, Bool, [], ◌∷◌, Text, ◌≤◌, length, is_space, drop_while, drop_last_while, trim, ◌≡◌, refl, ap,
  ◌∙◌, inl, inr, Bool-cases, arith,
}

drop_while-idempotent : (p : ℕ → Bool) (t : Text) → drop_while p (drop_while p t) ≡ drop_while p t
unfolding drop_while
drop_while-idempotent p [] = refl
drop_while-idempotent p (c ∷ t) = ground (arith, drop_while-idempotent p t)

drop_last_while-idempotent :
    (p : ℕ → Bool) (t : Text) → drop_last_while p (drop_last_while p t) ≡ drop_last_while p t
unfolding drop_last_while
drop_last_while-idempotent p [] = refl
drop_last_while-idempotent p (c ∷ t) = ground (arith, drop_last_while-idempotent p t)

length-drop_while : (p : ℕ → Bool) (t : Text) → length (drop_while p t) ≤ length t
unfolding drop_while
length-drop_while p [] = omega arith
length-drop_while p (c ∷ t) = ground (arith, length-drop_while p t)

-- What is left begins as before, so that nothing is to be dropped there.
drop_while-drop_last_while :
    (p : ℕ → Bool) (t : Text)
    → drop_while p t ≡ t
    → drop_while p (drop_last_while p t) ≡ drop_last_while p t
unfolding drop_while drop_last_while
drop_while-drop_last_while p [] h = refl
drop_while-drop_last_while p (c ∷ t) h = elim (Bool-cases (p c)) [
  | inl dropped ↦
      let shorter : drop_while p t ≡ c ∷ t = ground arith in
      absurd (omega (arith, length-drop_while p t, ap length shorter))
  | inr kept ↦ ground arith
]

pub trim_idempotent : (t : Text) → trim (trim t) ≡ trim t
unfolding trim
trim_idempotent t =
    ap (drop_last_while is_space) (
      drop_while-drop_last_while is_space (drop_while is_space t)
        (drop_while-idempotent is_space t))
    ∙ drop_last_while-idempotent is_space (drop_while is_space t)
