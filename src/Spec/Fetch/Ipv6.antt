-- ===== src/Spec/Fetch/Ipv6.antt =====
-- src/lib/spec/safe-spec-fetch.ts, dottedIPv4TailToHextets, embeddedIPv4, normalizeIpAddress,
-- expandIPv6, isBlockedIPv6 and isBlockedAddress. A part of an address of version 6 is made of
-- hexadecimal digits, four at most: what else `parseInt` would read does not occur in one.
pub mod Prefixes
pub mod Embedded
mod Tests
use Prim.Native.Nat.{bit_and}
use postman_bootstrap_action.Base.{
  ℕ, zero, suc, ◌+◌, ◌-◌, ◌*◌, ◌/◌, ◌%◌, Bool, true, false, not, ◌&&◌, ◌||◌, Option, none, some,
  List, [], ◌∷◌, ◌++◌, map, Text, codes, ◌===◌, ◌==◌, ltb, leb, is_digit, is_empty, trim, split_on,
  starts_with, drop_last, all, any, length, take, or_else, if◌then◌else◌,
}
use postman_bootstrap_action.Spec.Fetch.Ipv4.{Octets, parse_ipv4, is_blocked_ipv4}

abbrev pub is_hex_letter : ℕ → Bool
is_hex_letter c = leb b'a' c && leb c b'f'

abbrev pub hex_value : ℕ → Option ℕ
hex_value c =
    if is_digit c then some (c - b'0') else if is_hex_letter c then some (c - 87) else none

-- The digits that a text begins with, behind a number that was read.
unfoldable pub hex_from : ℕ → Text → ℕ
hex_from n [] = n
hex_from n (c ∷ t) = elim (hex_value c) [ none ↦ n | some d ↦ hex_from (n * 16 + d) t ]

-- `Number.parseInt(part, 16)`, `none` where it is not a number.
unfoldable pub parse_hex : Text → Option ℕ
parse_hex [] = none
parse_hex (c ∷ t) = elim (hex_value c) [ none ↦ none | some d ↦ some (hex_from d t) ]

abbrev pub hex_digit : ℕ → ℕ
hex_digit d = if leb d 9 then b'0' + d else 87 + d

-- `n.toString(16)` below 2 ^ 16, and `n.toString()` below 2 ^ 8.
unfoldable pub to_hex : ℕ → Text
to_hex n =
    if ltb n 16
    then hex_digit n ∷ []
    else if ltb n 256
    then hex_digit (n / 16) ∷ hex_digit (n % 16) ∷ []
    else if ltb n 4096
    then hex_digit (n / 256) ∷ hex_digit (n / 16 % 16) ∷ hex_digit (n % 16) ∷ []
    else hex_digit (n / 4096)
      ∷ hex_digit (n / 256 % 16)
      ∷ hex_digit (n / 16 % 16)
      ∷ hex_digit (n % 16)
      ∷ []

unfoldable pub to_decimal : ℕ → Text
to_decimal n =
    if ltb n 10
    then (b'0' + n) ∷ []
    else if ltb n 100
    then (b'0' + n / 10) ∷ (b'0' + n % 10) ∷ []
    else (b'0' + n / 100) ∷ (b'0' + n / 10 % 10) ∷ (b'0' + n % 10) ∷ []

abbrev pub is_short_number : Text → Bool
is_short_number part = all is_digit part && leb 1 (length part) && leb (length part) 3

-- The tail of the pattern: four numbers of one to three digits.
unfoldable pub is_dotted : Text → Bool
is_dotted t = length (split_on b'.' t) == 4 && all is_short_number (split_on b'.' t)

-- What stands before the last colon, with it, and what stands behind.
unfoldable pub split_last_colon : Text → Option (Text × Text)
split_last_colon [] = none
split_last_colon (c ∷ t) = elim (split_last_colon t) [
  | some p ↦ some (c ∷ p.0, p.1)
  | none ↦ if c == b':' then some (c ∷ [], t) else none
]

unfoldable pub hextets : Octets → Text
hextets o = to_hex (o.a * 256 + o.b) ++ (b':' ∷ to_hex (o.c * 256 + o.d))

unfoldable pub convert_tail : Text → Text → Text → Text
convert_tail address front tail =
    if is_dotted tail
    then elim (parse_ipv4 tail) [ none ↦ address | some o ↦ front ++ hextets o ]
    else address

-- No line break stands in an address, so that the dot of the pattern matches every unit.
unfoldable pub dotted_ipv4_tail_to_hextets : Text → Text
dotted_ipv4_tail_to_hextets address = elim (split_last_colon address) [
  | none ↦ address
  | some p ↦ convert_tail address p.0 p.1
]

abbrev pub nth : ℕ → List Text → Option Text
nth n [] = none
nth zero (p ∷ ps) = some p
nth (suc n) (p ∷ ps) = nth n ps

abbrev pub part_or : Text → Option Text → Text
part_or blank none = blank
part_or blank (some t) = t

abbrev pub quad : ℕ → ℕ → Text
quad high low =
    to_decimal (high / 256)
    ++ (b'.'
        ∷ (to_decimal (high % 256)
            ++ (b'.' ∷ (to_decimal (low / 256) ++ (b'.' ∷ to_decimal (low % 256))))))

abbrev pub quad_of : Option ℕ → Option ℕ → Option Text
quad_of (some high) (some low) = some (quad high low)
quad_of _ _ = none

unfoldable pub embedded_ipv4 : List Text → Option Text
embedded_ipv4 parts =
    quad_of (parse_hex (part_or [] (nth 6 parts))) (parse_hex (part_or [] (nth 7 parts)))

-- The texts before and behind the first double colon.
unfoldable pub cut_double : Text → Text × Option Text
cut_double [] = ([], none)
cut_double (c ∷ t) =
    let rest = cut_double t in
    if starts_with (codes "::") (c ∷ t) then ([], some (drop_one t)) else (c ∷ rest.0, rest.1)
  where
    drop_one : Text → Text
    drop_one [] = []
    drop_one (d ∷ u) = u

abbrev pub keep_given : List Text → List Text
keep_given [] = []
keep_given (p ∷ ps) = let rest = keep_given ps in if is_empty p then rest else p ∷ rest

abbrev pub repeat_zero : ℕ → List Text
repeat_zero zero = []
repeat_zero (suc n) = codes "0" ∷ repeat_zero n

abbrev pub zeros_for : ℕ → Text
zeros_for zero = []
zeros_for (suc n) = b'0' ∷ zeros_for n

-- `part.padStart(4, '0')`
unfoldable pub pad4 : Text → Text
pad4 t = zeros_for (4 - length t) ++ t

-- The second piece of the split ends at the next double colon.
abbrev pub tail_parts : Option Text → List Text
tail_parts none = []
tail_parts (some tail) = keep_given (split_on b':' ((cut_double tail).0))

unfoldable pub expand_parts : List Text → List Text → List Text
expand_parts head tail = map pad4 (head ++ (repeat_zero (8 - length head - length tail) ++ tail))

-- `(n & mask) === value`, where `n` may be no number.
unfoldable pub is_masked : ℕ → ℕ → Option ℕ → Bool
is_masked mask value none = false
is_masked mask value (some n) = bit_and n mask == value

abbrev pub is_number : ℕ → Option ℕ → Bool
is_number m none = false
is_number m (some n) = n == m

abbrev pub is_at_most : ℕ → Option ℕ → Bool
is_at_most m none = false
is_at_most m (some n) = leb n m

abbrev pub are_zero : List Text → Bool
are_zero = all (λ p. p === codes "0000")

abbrev pub drop_first : List Text → List Text
drop_first [] = []
drop_first (p ∷ ps) = ps

-- The tests of the first two hextets.
unfoldable pub is_special_prefix : Option ℕ → Option ℕ → List Text → Bool
is_special_prefix first second parts =
    any (λ test. test)
      (is_masked 0xfe00 0xfc00 first
        ∷ is_masked 0xffc0 0xfe80 first
        ∷ is_masked 0xffc0 0xfec0 first
        ∷ is_masked 0xff00 0xff00 first
        ∷ (is_number 0x64 first && is_number 0xff9b second)
        ∷ (is_number 0x100 first && are_zero (take 3 (drop_first parts)))
        ∷ (is_number 0x2001 first && is_at_most 0x1ff second)
        ∷ (is_number 0x2001 first && is_number 0xdb8 second)
        ∷ is_number 0x2002 first
        ∷ [])

unfoldable pub is_mapped : List Text → Bool
is_mapped parts = are_zero (take 5 parts) && part_or [] (nth 5 parts) === codes "ffff"

unfoldable pub is_compatible : List Text → Bool
is_compatible parts = are_zero (take 6 parts)

unfoldable pub is_blocked_embedded : Option Text → Bool
is_blocked_embedded none = true
is_blocked_embedded (some t) = is_empty t || is_blocked_ipv4 t

unfoldable pub are_blocked_parts : List Text → Bool
are_blocked_parts parts =
    if is_special_prefix (parse_hex (part_or (codes "0") (nth 0 parts)))
      (parse_hex (part_or (codes "0") (nth 1 parts))) parts
    then true
    else if is_mapped parts || is_compatible parts
    then is_blocked_embedded (embedded_ipv4 parts)
    else false

abbrev pub join_colon : List Text → Text
join_colon [] = []
join_colon (p ∷ []) = p
join_colon (p ∷ (q ∷ ps)) = p ++ (b':' ∷ join_colon (q ∷ ps))

-- Lower case, and `isIP` of node:net.
module _ (to_lower : Text → Text) (is_ip : Text → ℕ) where
  unfoldable pub expand_ipv6 : Text → List Text
  expand_ipv6 address =
      let cuts = cut_double (to_lower (dotted_ipv4_tail_to_hextets address)) in
      expand_parts (keep_given (split_on b':' (cuts.0))) (tail_parts (cuts.1))

  unfoldable pub is_blocked_ipv6 : Text → Bool
  is_blocked_ipv6 address =
      let normalized = to_lower (dotted_ipv4_tail_to_hextets address) in
      normalized === codes "::"
      || normalized === codes "::1"
      || are_blocked_parts (expand_ipv6 normalized)

  abbrev first_part : List Text → Text
  first_part [] = []
  first_part (p ∷ ps) = p

  unfoldable pub canonical_parts : Text → List Text → Text
  canonical_parts converted parts =
      if is_mapped parts || is_compatible parts
      then part_or converted (embedded_ipv4 parts)
      else join_colon parts

  unfoldable pub normalize_ip_address : Text → Text
  normalize_ip_address address =
      let converted =
        dotted_ipv4_tail_to_hextets (first_part (split_on b'%' (to_lower (trim address)))) in
      if is_ip converted == 6 then canonical_parts converted (expand_ipv6 converted) else converted

  unfoldable pub is_blocked_address : Text → Bool
  is_blocked_address address =
      let normalized = normalize_ip_address address in
      if is_ip normalized == 4
      then is_blocked_ipv4 normalized
      else if is_ip normalized == 6
      then is_blocked_ipv6 normalized
      else true
