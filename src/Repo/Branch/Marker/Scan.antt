-- ===== src/Repo/Branch/Marker/Scan.antt =====
-- The brace counting of `parseAssetMarker` over printed JSON.
use postman_bootstrap_action.Base.{
  ℕ, suc, ◌<◌, Bool, true, false, not, ◌&&◌, Option, none, some, [], ◌∷◌, ◌++◌, Text, codes, ◌==◌,
  all, all-append, ◌≡◌, refl, ◌∙◌, ap, arith, append_assoc,
}
use postman_bootstrap_action.Base.Json.{
  Json, Items, Fields, null, bool, num, str, arr, obj, nil, cons, end, field,
}
use postman_bootstrap_action.Base.Json.Print.{
  hex_digit, unicode_escape, escape, escape_from, quote, is_high, starts_low, stringify, join_items,
  join_fields,
}
use postman_bootstrap_action.Repo.Branch.Marker.{balanced}
use mathlib.Core.Option
use native.Mathlib.Numerals.{add-one}
use Prim.Native.Nat.{◌/◌, ◌%◌}

unfoldable pub is_plain : ℕ → Bool
is_plain c = not (c == b'{') && not (c == b'}')

abbrev pub before : Text → Option Text → Option Text
before t o = Option.map (λ (r : Text). t ++ r) o

before-before : (s t : Text) (o : Option Text) → before s (before t o) ≡ before (s ++ t) o
before-before s t none = refl
before-before s t (some r) = ap (λ (x : Text). some x) (rw append_assoc)

before_nil : (o : Option Text) → before [] o ≡ o
before_nil none = refl
before_nil (some r) = refl

-- A text that the loop passes over, at any depth but 0.
abbrev pub Passes : Text → Type 0
Passes t = (d : ℕ) (rest : Text) → balanced (suc d) (t ++ rest) ≡ before t (balanced (suc d) rest)

balanced_cons :
    (c d : ℕ) (t : Text)
    → is_plain c ≡ true
    → balanced (suc d) (c ∷ t) ≡ before (c ∷ []) (balanced (suc d) t)
unfolding balanced is_plain
balanced_cons c d t h = ground arith

pub Passes-append : (s t : Text) → Passes s → Passes t → Passes (s ++ t)
Passes-append s t h k d rest =
    rw append_assoc (rw (h d (t ++ rest)) (rw (k d rest) (before-before s t _)))

pub Passes-plain : (t : Text) → all is_plain t ≡ true → Passes t
Passes-plain [] h d rest = rw before_nil
Passes-plain (c ∷ t) h d rest =
    balanced_cons c d (t ++ rest) (ground arith)
    ∙ ap (before (c ∷ [])) (Passes-plain t (ground arith) d rest)
    ∙ before-before (c ∷ []) t _

pub balanced_open :
    (d : ℕ) (t : Text) → balanced d (b'{' ∷ t) ≡ before (b'{' ∷ []) (balanced (suc d) t)
unfolding balanced
balanced_open d t = rw add-one

pub balanced_last : (t : Text) → balanced 1 (b'}' ∷ t) ≡ some (b'}' ∷ [])
unfolding balanced
balanced_last t = refl

balanced_close :
    (d : ℕ) (t : Text) → balanced (suc (suc d)) (b'}' ∷ t) ≡ before (b'}' ∷ []) (balanced (suc d) t)
unfolding balanced
balanced_close d t = ground arith

Passes-object : (t : Text) → Passes t → Passes (b'{' ∷ t ++ b'}' ∷ [])
Passes-object t h d rest =
    balanced_open (suc d) ((t ++ b'}' ∷ []) ++ rest)
    ∙ ap (λ u. before (b'{' ∷ []) (balanced (suc (suc d)) u)) (append_assoc t (b'}' ∷ []) rest)
    ∙ ap (before (b'{' ∷ [])) (h (suc d) (b'}' ∷ rest))
    ∙ ap (λ o. before (b'{' ∷ []) (before t o)) (balanced_close d rest)
    ∙ ap (before (b'{' ∷ [])) (before-before t (b'}' ∷ []) _)
    ∙ before-before (b'{' ∷ []) (t ++ b'}' ∷ []) _

hex_digit_plain : (n : ℕ) → n < 16 → is_plain (hex_digit n) ≡ true
unfolding hex_digit is_plain
hex_digit_plain n h = ground arith

unicode_escape_plain : (c : ℕ) → c < 65536 → all is_plain (unicode_escape c) ≡ true
unfolding unicode_escape is_plain
unicode_escape_plain c h = ground (
  arith,
  hex_digit_plain (c / 4096) (omega arith),
  hex_digit_plain (c / 256 % 16) (omega arith),
  hex_digit_plain (c / 16 % 16) (omega arith),
  hex_digit_plain (c % 16) (omega arith),
)

escape_plain : (c : ℕ) → is_plain c ≡ true → all is_plain (escape c) ≡ true
unfolding escape is_plain
escape_plain c h = ground (arith, unicode_escape_plain c)

pub escape_from_plain :
    (paired : Bool) (t : Text) → all is_plain t ≡ true → all is_plain (escape_from paired t) ≡ true
unfolding escape_from
escape_from_plain paired [] h = refl
escape_from_plain paired (c ∷ t) h = ground (
  arith,
  escape_from_plain (is_high c && starts_low t) t,
  escape_plain c,
  all-append is_plain (escape c) (escape_from (is_high c && starts_low t) t),
)

pub quote_plain : (t : Text) → all is_plain t ≡ true → all is_plain (quote t) ≡ true
unfolding quote is_plain
quote_plain t h =
    ground (arith, escape_from_plain false t, all-append is_plain (escape_from false t) (b'"' ∷ []))

-- No name, string or number form holds a brace.
unfoldable mutual
  pub is_braceless : Json → Bool
  is_braceless null = true
  is_braceless (bool b) = true
  is_braceless (num zero t) = all is_plain t
  is_braceless (str t) = all is_plain t
  is_braceless (arr xs) = braceless_items xs
  is_braceless (obj fs) = braceless_fields fs

  pub braceless_items : Items → Bool
  braceless_items nil = true
  braceless_items (cons v vs) = is_braceless v && braceless_items vs

  pub braceless_fields : Fields → Bool
  braceless_fields end = true
  braceless_fields (field k v fs) = all is_plain k && is_braceless v && braceless_fields fs

mutual
  unfolding stringify is_braceless is_plain

  pub Passes-stringify : (v : Json) → is_braceless v ≡ true → Passes (stringify v)
  Passes-stringify null h = Passes-plain (codes "null") refl
  Passes-stringify (bool true) h = Passes-plain (codes "true") refl
  Passes-stringify (bool false) h = Passes-plain (codes "false") refl
  Passes-stringify (num zero t) h = Passes-plain t h
  Passes-stringify (str t) h = Passes-plain (quote t) (quote_plain t h)
  Passes-stringify (arr xs) h =
      Passes-append (b'[' ∷ []) (join_items xs ++ b']' ∷ []) (Passes-plain (b'[' ∷ []) refl) (
        Passes-append (join_items xs) (b']' ∷ []) (Passes-join_items xs h)
          (Passes-plain (b']' ∷ []) refl))
  Passes-stringify (obj fs) h = Passes-object (join_fields fs) (Passes-join_fields fs h)

  Passes-join_items : (xs : Items) → braceless_items xs ≡ true → Passes (join_items xs)
  Passes-join_items nil h = Passes-plain [] refl
  Passes-join_items (cons v nil) h = Passes-stringify v (ground arith)
  Passes-join_items (cons v (cons w vs)) h =
      Passes-append (stringify v) _ (Passes-stringify v (ground arith)) (
        Passes-append (b',' ∷ []) _ (Passes-plain (b',' ∷ []) refl)
          (Passes-join_items (cons w vs) (ground arith)))

  pub Passes-join_fields : (fs : Fields) → braceless_fields fs ≡ true → Passes (join_fields fs)
  Passes-join_fields end h = Passes-plain [] refl
  Passes-join_fields (field k v end) h =
      Passes-append (quote k) _ (Passes-plain (quote k) (quote_plain k (ground arith))) (
        Passes-append (b':' ∷ []) _ (Passes-plain (b':' ∷ []) refl)
          (Passes-stringify v (ground arith)))
  Passes-join_fields (field k v (field l w fs)) h =
      Passes-append (quote k ++ b':' ∷ stringify v) _
        (Passes-append (quote k) _ (Passes-plain (quote k) (quote_plain k (ground arith))) (
          Passes-append (b':' ∷ []) _ (Passes-plain (b':' ∷ []) refl)
            (Passes-stringify v (ground arith))))
        (Passes-append (b',' ∷ []) _ (Passes-plain (b',' ∷ []) refl)
          (Passes-join_fields (field l w fs) (ground arith)))
