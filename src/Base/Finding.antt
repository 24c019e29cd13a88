-- ===== src/Base/Finding.antt =====
-- Members of lists whose keys are distinct.
use mathlib.Core.Path.{◌≡◌, refl, sym, ap₂, subst}
use mathlib.Core.Logic.{inl, inr}
use mathlib.Core.Bool.{Bool, true, false, ◌&&◌, ◌||◌}
use mathlib.Core.List.{List, [], ◌∷◌, map, Memᴰ}
use native.Mathlib.Omega.{arith}
use postman_bootstrap_action.Base.Tests.{Bool-cases}
use postman_bootstrap_action.Base.Lists.{any}
use postman_bootstrap_action.Base.Strings.{Text, ◌===◌}

pub ===→≡ : (s t : Text) → (s === t) ≡ true → s ≡ t
===→≡ s t h = ground arith

pub ≡→=== : {s t : Text} → s ≡ t → (s === t) ≡ true
≡→=== h = ground arith

-- No two of the texts are the same.
abbrev pub AreDistinct : List Text → Type 0
AreDistinct [] = Unit
AreDistinct (k ∷ ks) = (any (λ j. j === k) ks ≡ false) × AreDistinct ks

module _ {ℓ} {A : Type ℓ} where
  pub any-ext :
      (p q : A → Bool) (xs : List A) → ((x : A) → Memᴰ x xs → p x ≡ q x) → any p xs ≡ any q xs
  any-ext p q [] h = refl
  any-ext p q (x ∷ xs) h =
      ap₂ (λ a b. a || b) (h x (Memᴰ.head refl)) (any-ext p q xs (λ y m. h y (Memᴰ.tail m)))

  pub any-none :
      (p : A → Bool) (xs : List A) → ((x : A) → Memᴰ x xs → p x ≡ false) → any p xs ≡ false
  any-none p [] h = refl
  any-none p (x ∷ xs) h = rw (h x (Memᴰ.head refl)) (any-none p xs (λ y m. h y (Memᴰ.tail m)))

  module _ (key : A → Text) where
    unseen_key :
        (k : Text) (xs : List A)
        → any (λ j. j === k) (map key xs) ≡ false
        → (x : A) → Memᴰ x xs
        → (key x === k) ≡ false
    unseen_key k [] h x m = elim m [ ]
    unseen_key k (y ∷ ys) h x (Memᴰ.head e) =
        subst (λ z. (key z === k) ≡ false) (sym e) (ground arith)
    unseen_key k (y ∷ ys) h x (Memᴰ.tail m) = unseen_key k ys (ground arith) x m

    -- Only the one member with this key counts.
    pub any_at :
        (q : A → Bool) (xs : List A)
        → AreDistinct (map key xs)
        → (x : A) → Memᴰ x xs
        → any (λ y. (key y === key x) && q y) xs ≡ q x
    any_at q [] d x m = elim m [ ]
    any_at q (y ∷ ys) d x (Memᴰ.head e) =
        subst (λ z. any (λ w. (key w === key z) && q w) (y ∷ ys) ≡ q z) (sym e)
          (let none_else : any (λ w. (key w === key y) && q w) ys ≡ false =
              any-none (λ w. (key w === key y) && q w) ys
                (λ w m. rw (unseen_key (key y) ys (d.0) w m) refl) in
            ground arith)
    any_at q (y ∷ ys) d x (Memᴰ.tail m) =
        let apart : (key x === key y) ≡ false = unseen_key (key y) ys (d.0) x m in
        let rest : any (λ w. (key w === key x) && q w) ys ≡ q x = any_at q ys (d.1) x m in
        ground arith

  pub any_member :
      (p : A → Bool) (xs : List A) → any p xs ≡ true → (x : A) × (Memᴰ x xs × (p x ≡ true))
  any_member p [] h = absurd (ground arith)
  any_member p (x ∷ xs) h = elim (Bool-cases (p x)) [
    | inl passes ↦ (x, (Memᴰ.head refl, passes))
    | inr fails ↦
        let rest : any p xs ≡ true = ground arith in
        let (y, (m, hit)) = any_member p xs rest in (y, (Memᴰ.tail m, hit))
  ]

  pub any_of_member :
      (p : A → Bool) (xs : List A) (x : A) → Memᴰ x xs → p x ≡ true → any p xs ≡ true
  any_of_member p [] x m h = elim m [ ]
  any_of_member p (y ∷ ys) x (Memᴰ.head e) h =
      let here : p y ≡ true = subst (λ z. p z ≡ true) e h in rw here refl
  any_of_member p (y ∷ ys) x (Memᴰ.tail m) h =
      let rest : any p ys ≡ true = any_of_member p ys x m h in ground arith

  pub none_of_any :
      (p : A → Bool) (xs : List A) (x : A) → any p xs ≡ false → Memᴰ x xs → p x ≡ false
  none_of_any p xs x h m = elim (Bool-cases (p x)) [
    | inl passes ↦
        let some_one : any p xs ≡ true = any_of_member p xs x m passes in absurd (ground arith)
    | inr fails ↦ fails
  ]
