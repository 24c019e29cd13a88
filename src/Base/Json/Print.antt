-- ===== src/Base/Json/Print.antt =====
-- `JSON.stringify` without indentation.
use postman_bootstrap_action.Base.Tests.{leb, ◌==◌, if◌then◌else◌}
use postman_bootstrap_action.Base.Strings.{Text, codes}
use postman_bootstrap_action.Base.Json.{
  Json, Items, Fields, null, bool, num, str, arr, obj, nil, cons, end, field,
}
use Prim.Native.Nat.{ℕ, ◌+◌, ◌/◌, ◌%◌}
use mathlib.Core.Bool.{Bool, true, false, ◌&&◌, ◌||◌}
use mathlib.Core.List.{[], ◌∷◌, ◌++◌}

abbrev pub is_high : ℕ → Bool
is_high c = leb 0xd800 c && leb c 0xdbff

abbrev pub is_low : ℕ → Bool
is_low c = leb 0xdc00 c && leb c 0xdfff

abbrev pub starts_low : Text → Bool
starts_low [] = false
starts_low (c ∷ t) = is_low c

-- A hexadecimal digit, in lower case.
unfoldable pub hex_digit : ℕ → ℕ
hex_digit n = if leb n 9 then b'0' + n else 87 + n

unfoldable pub unicode_escape : ℕ → Text
unicode_escape c =
    b'\\'
    ∷ b'u'
    ∷ hex_digit (c / 4096)
    ∷ hex_digit (c / 256 % 16)
    ∷ hex_digit (c / 16 % 16)
    ∷ hex_digit (c % 16)
    ∷ []

-- A unit that is no part of a surrogate pair.
unfoldable pub escape : ℕ → Text
escape c =
    if c == b'"'
    then b'\\' ∷ c ∷ []
    else if c == b'\\'
    then b'\\' ∷ c ∷ []
    else if c == 8
    then b'\\' ∷ b'b' ∷ []
    else if c == 9
    then b'\\' ∷ b't' ∷ []
    else if c == 10
    then b'\\' ∷ b'n' ∷ []
    else if c == 12
    then b'\\' ∷ b'f' ∷ []
    else if c == 13
    then b'\\' ∷ b'r' ∷ []
    else if leb c 31 || is_high c || is_low c
    then unicode_escape c
    else c ∷ []

-- The flag says that the unit before was the first of a surrogate pair.
unfoldable pub escape_from : Bool → Text → Text
escape_from paired [] = []
escape_from paired (c ∷ t) =
    let rest = escape_from (is_high c && starts_low t) t in
    if (is_high c && starts_low t) || (is_low c && paired) then c ∷ rest else escape c ++ rest

unfoldable pub quote : Text → Text
quote t = b'"' ∷ escape_from false t ++ b'"' ∷ []

abbrev pub bool_text : Bool → Text
bool_text true = codes "true"
bool_text false = codes "false"

unfoldable mutual
  pub stringify : Json → Text
  stringify null = codes "null"
  stringify (bool b) = bool_text b
  stringify (num zero t) = t
  stringify (str t) = quote t
  stringify (arr xs) = b'[' ∷ join_items xs ++ b']' ∷ []
  stringify (obj fs) = b'{' ∷ join_fields fs ++ b'}' ∷ []

  -- What stands between the brackets of an array.
  pub join_items : Items → Text
  join_items nil = []
  join_items (cons v nil) = stringify v
  join_items (cons v (cons w vs)) = stringify v ++ b',' ∷ join_items (cons w vs)

  -- What stands between the braces of an object.
  pub join_fields : Fields → Text
  join_fields end = []
  join_fields (field k v end) = quote k ++ b':' ∷ stringify v
  join_fields (field k v (field l w fs)) =
      (quote k ++ b':' ∷ stringify v) ++ b',' ∷ join_fields (field l w fs)
