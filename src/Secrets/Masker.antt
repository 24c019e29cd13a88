-- ===== src/Secrets/Masker.antt =====
-- A masker that grows (src/lib/secrets.ts, createMutableSecretMasker).
use postman_bootstrap_action.Base.{
  true, false, not, ◌||◌, List, [], ◌∷◌, Text, ◌===◌, is_empty, trim, includes, any, any-append,
  All, ◌≡◌, refl, sym, ap, subst, ◌∙◌, inl, inr, Bool-cases, if-both, if◌then◌else◌, arith,
}
use postman_bootstrap_action.Base.Finding.{===→≡, ≡→===}
use postman_bootstrap_action.Base.Json.{str, arr}
use postman_bootstrap_action.Secrets.{
  secret_values, item_values, has, distinct, insert_long, sort_long, normalize_secret_values,
  redact_secrets, texts, mask, add, add_all,
}
use postman_bootstrap_action.Secrets.Trim.{trim_idempotent}
use postman_bootstrap_action.Secrets.Laws.{AreApart, redact_secrets-AreAbsent}

has-insert_long : (t s : Text) (ss : List Text) → has t (insert_long s ss) ≡ (s === t || has t ss)
unfolding has insert_long
has-insert_long t s [] = refl
has-insert_long t s (u ∷ ss) = ground (arith, has-insert_long t s ss)

has-sort_long : (t : Text) (ss : List Text) → has t (sort_long ss) ≡ has t ss
unfolding has sort_long
has-sort_long t [] = refl
has-sort_long t (s ∷ ss) =
    has-insert_long t s (sort_long ss) ∙ ap (λ z. s === t || z) (has-sort_long t ss)

-- Every value is kept once.
distinct-seen :
    (s : Text) (seen ss : List Text) → has s seen ≡ true → distinct seen (s ∷ ss) ≡ distinct seen ss
unfolding distinct
distinct-seen s seen ss h = rw (distinct, h) refl

distinct-new :
    (s : Text) (seen ss : List Text)
    → has s seen ≡ false
    → distinct seen (s ∷ ss) ≡ s ∷ distinct (s ∷ seen) ss
unfolding distinct
distinct-new s seen ss h = rw (distinct, h) refl

has-distinct :
    (t : Text) (seen ss : List Text)
    → has t ss ≡ true
    → (has t seen || has t (distinct seen ss)) ≡ true
unfolding has
has-distinct t seen [] h = absurd (cc)
has-distinct t seen (s ∷ ss) h = elim (Bool-cases (has s seen)) [
  | inl before ↦
      subst (λ z. (has t seen || has t z) ≡ true) (sym (distinct-seen s seen ss before))
        (elim (Bool-cases (s === t)) [
          | inl same ↦
              let there : has t seen ≡ true =
                subst (λ z. has z seen ≡ true) (===→≡ s t same) before in
              rw there refl
          | inr other ↦ has-distinct t seen ss (ground arith)
        ])
  | inr new ↦
      subst (λ z. (has t seen || has t z) ≡ true) (sym (distinct-new s seen ss new))
        (elim (Bool-cases (s === t)) [
          | inl same ↦ ground arith
          | inr other ↦ let rest = has-distinct t (s ∷ seen) ss (ground arith) in ground arith
        ])
]

own_value :
    (t s : Text) → trim t ≡ t → is_empty t ≡ false → s ≡ t → has t (secret_values (str s)) ≡ true
unfolding has secret_values
own_value t s trimmed given same =
    subst (λ z. any (λ u. u === t) (if is_empty (trim z) then [] else trim z ∷ []) ≡ true)
      (sym same)
      (subst (λ z. any (λ u. u === t) (if is_empty z then [] else z ∷ []) ≡ true) (sym trimmed)
        (rw given (rw (≡→=== {s = t} refl) refl)))

-- A text that stands in the list, trimmed and not empty, is one of its values.
has-item_values :
    (t : Text) (ss : List Text)
    → trim t ≡ t
    → is_empty t ≡ false
    → has t ss ≡ true
    → has t (item_values (texts ss)) ≡ true
unfolding has secret_values
has-item_values t [] trimmed given h = absurd (cc)
has-item_values t (s ∷ ss) trimmed given h =
    any-append (λ u. u === t) (secret_values (str s)) (item_values (texts ss))
    ∙ elim (Bool-cases (s === t)) [
      | inl same ↦ rw (own_value t s trimmed given (===→≡ s t same)) refl
      | inr other ↦
          let rest = has-item_values t ss trimmed given (ground arith) in rw rest (ground arith)
    ]

has-add :
    (secrets : List Text) (v : Text)
    → is_empty (trim v) ≡ false
    → has (trim v) (add secrets v) ≡ true
unfolding has add
has-add secrets v given = elim (Bool-cases (has (trim v) secrets)) [
  | inl there ↦ rw given (rw there there)
  | inr new ↦ rw given (
      rw new (
        any-append (λ u. u === trim v) secrets (trim v ∷ [])
        ∙ rw new (rw (≡→=== {s = trim v} refl) refl)))
]

add-keeps : (secrets : List Text) (t v : Text) → has t secrets ≡ true → has t (add secrets v) ≡ true
unfolding has add
add-keeps secrets t v h =
    if-both (λ z. has t z ≡ true) _ (any-append (λ u. u === t) secrets (trim v ∷ []) ∙ rw h refl) h

add_all-keeps :
    (secrets : List Text) (t : Text) (vs : List Text)
    → has t secrets ≡ true
    → has t (add_all secrets vs) ≡ true
unfolding add_all
add_all-keeps secrets t [] h = h
add_all-keeps secrets t (v ∷ vs) h = add_all-keeps (add secrets v) t vs (add-keeps secrets t v h)

All-has : (P : Text → Type 0) (ss : List Text) (t : Text) → All P ss → has t ss ≡ true → P t
unfolding has
All-has P [] t a h = absurd (cc)
All-has P (s ∷ ss) t (p, a) h = elim (Bool-cases (s === t)) [
  | inl same ↦ subst P (===→≡ s t same) p
  | inr other ↦ All-has P ss t a (ground arith)
]

-- The secrets that a mask with these secrets replaces.
abbrev pub replaced : List Text → List Text
replaced secrets = normalize_secret_values (arr (texts secrets))

mask-absent :
    (replacement input t : Text) (secrets : List Text)
    → AreApart replacement (replaced secrets)
    → trim t ≡ t
    → is_empty t ≡ false
    → has t secrets ≡ true
    → includes t (mask replacement secrets input) ≡ false
unfolding mask normalize_secret_values secret_values has
mask-absent replacement input t secrets apart trimmed given h =
    All-has (λ s. includes s (redact_secrets input (arr (texts secrets)) replacement) ≡ false)
      (replaced secrets) t (redact_secrets-AreAbsent input (arr (texts secrets)) replacement apart)
      (has-sort_long t (distinct [] (item_values (texts secrets)))
        ∙ has-distinct t [] (item_values (texts secrets))
            (has-item_values t secrets trimmed given h))

masked_value :
    (replacement input v : Text) (secrets : List Text)
    → AreApart replacement (replaced secrets)
    → (is_empty (trim v) ≡ false → has (trim v) secrets ≡ true)
    → (is_empty (trim v) || not (includes (trim v) (mask replacement secrets input))) ≡ true
masked_value replacement input v secrets apart h = elim (Bool-cases (is_empty (trim v))) [
  | inl blank ↦ rw blank refl
  | inr given ↦ rw given (
      rw (mask-absent replacement input (trim v) secrets apart (trim_idempotent v) given (h given))
        refl)
]

-- Whatever a masker has been given since it was made, it replaces: no value that was added, trimmed
-- and not empty, is in what it returns. Given that its secrets are apart from the replacement.
pub mask-add_all :
    (replacement input : Text) (secrets added : List Text)
    → AreApart replacement (replaced (add_all secrets added))
    → All
        (λ v.
          (is_empty (trim v)
            || not (includes (trim v) (mask replacement (add_all secrets added) input)))
          ≡ true)
        added
unfolding add_all
mask-add_all replacement input secrets [] apart = tt
mask-add_all replacement input secrets (v ∷ vs) apart = (
  masked_value replacement input v (add_all secrets (v ∷ vs)) apart
      (λ given. add_all-keeps (add secrets v) (trim v) vs (has-add secrets v given)),
  mask-add_all replacement input (add secrets v) vs apart,
)
