-- ===== src/Postman/CreateReconciliation/Laws.antt =====
-- What is adopted after a creation whose outcome is not known (create-reconciliation.ts).
use mathlib.Core.List.{Memᴰ}
use postman_bootstrap_action.Base.{
  ℕ, suc, ◌≤◌, true, List, [], ◌∷◌, Text, ◌===◌, length, ◌≡◌, refl, subst, sym, inl, inr,
  Bool-cases, if◌then◌else◌, arith,
}
use postman_bootstrap_action.Postman.CreateReconciliation.{
  Adoption, nothing, adopted, ambiguous_create_match, adopt_exact_match, filter_exact_name,
}

module _ {A : Type 0} (name_of : A → Text) (name : Text) where
  -- How many of the entries have the name.
  abbrev pub count : List A → ℕ
  count [] = 0
  count (e ∷ es) = let rest = count es in if name_of e === name then suc rest else rest

  -- The only entry with the name is adopted, and nothing if there is none; if there are several, the
  -- error says how many.
  abbrev pub IsExact : List A → Adoption A → Type 0
  IsExact es nothing = count es ≡ 0
  IsExact es (adopted e) = (count es ≡ 1) × (((name_of e === name) ≡ true) × Memᴰ e es)
  IsExact es (ambiguous_create_match n) = (n ≡ count es) × (2 ≤ n)

  length-filter_exact_name : (es : List A) → length (filter_exact_name name_of es name) ≡ count es
  unfolding filter_exact_name
  length-filter_exact_name [] = refl
  length-filter_exact_name (e ∷ es) = ground (arith, length-filter_exact_name es)

  filter_exact_name-member :
      (es : List A) (e : A)
      → Memᴰ e (filter_exact_name name_of es name)
      → ((name_of e === name) ≡ true) × Memᴰ e es
  unfolding filter_exact_name
  filter_exact_name-member [] e m = elim m [ ]
  filter_exact_name-member (f ∷ es) e m = elim (Bool-cases (name_of f === name)) [
    | inl hit ↦
        kept f es e hit
          (subst
            (λ b. Memᴰ e (
              if b
              then f ∷ filter_exact_name name_of es name
              else filter_exact_name name_of es name))
            hit m)
          (filter_exact_name-member es e)
    | inr miss ↦
        let (hit, n') = filter_exact_name-member es e (
          subst
            (λ b. Memᴰ e (
              if b
              then f ∷ filter_exact_name name_of es name
              else filter_exact_name name_of es name))
            miss m) in
        (hit, Memᴰ.tail n')
  ]
    where
      kept :
          (f : A) (es : List A) (e : A)
          → (name_of f === name) ≡ true
          → Memᴰ e (f ∷ filter_exact_name name_of es name)
          → (Memᴰ e (filter_exact_name name_of es name) → ((name_of e === name) ≡ true) × Memᴰ e es)
          → ((name_of e === name) ≡ true) × Memᴰ e (f ∷ es)
      kept f es e hit (Memᴰ.head same) rest =
          (subst (λ z. (name_of z === name) ≡ true) (sym same) hit, Memᴰ.head same)
      kept f es e hit (Memᴰ.tail m) rest = let (h, n) = rest m in (h, Memᴰ.tail n)

  adopt_exact_match-IsExact :
      (es xs : List A)
      → length xs ≡ count es
      → ((e : A) → Memᴰ e xs → ((name_of e === name) ≡ true) × Memᴰ e es)
      → IsExact es (adopt_exact_match xs)
  unfolding adopt_exact_match
  adopt_exact_match-IsExact es [] same from = sym same
  adopt_exact_match-IsExact es (x ∷ []) same from = (sym same, from x (Memᴰ.head refl))
  adopt_exact_match-IsExact es (x ∷ (y ∷ xs)) same from = (same, omega arith)

  -- Of the entries with exactly this name, the only one is adopted; if there is none, nothing is; and
  -- if there are several, the error says how many. An entry with another name is never adopted.
  pub adopt_exact_match-filter_exact_name :
      (es : List A) → IsExact es (adopt_exact_match (filter_exact_name name_of es name))
  adopt_exact_match-filter_exact_name es =
      adopt_exact_match-IsExact es (filter_exact_name name_of es name) (length-filter_exact_name es)
        (filter_exact_name-member es)
