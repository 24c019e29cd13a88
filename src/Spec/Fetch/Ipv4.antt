-- ===== src/Spec/Fetch/Ipv4.antt =====
-- src/lib/spec/safe-spec-fetch.ts, parseIPv4 and isBlockedIPv4: the addresses of version 4 that are
-- not to be connected to.
pub mod Ranges
pub mod Bytes
use postman_bootstrap_action.Base.{
  ℕ, ◌+◌, ◌-◌, ◌*◌, Bool, true, false, ◌&&◌, ◌||◌, Option, none, some, List, [], ◌∷◌, Text, ◌==◌,
  ltb, leb, is_digit, is_space, drop_while, split_on, any, if◌then◌else◌,
}

pub record Octets : Type 0 where
  pub a : ℕ
  pub b : ℕ
  pub c : ℕ
  pub d : ℕ

-- The digits that a text begins with, behind a number that was read.
unfoldable pub digits_from : ℕ → Text → ℕ
digits_from n [] = n
digits_from n (u ∷ t) =
    let rest = digits_from (n * 10 + (u - b'0')) t in if is_digit u then rest else n

unfoldable pub digits : Text → Option ℕ
digits [] = none
digits (u ∷ t) = if is_digit u then some (digits_from 0 (u ∷ t)) else none

-- Of the numbers with a minus sign, zero alone is not negative.
abbrev only_zero : Option ℕ → Option ℕ
only_zero none = none
only_zero (some n) = if n == 0 then some 0 else none

-- `Number.parseInt(part, 10)`, `none` where it is not a number or negative.
unfoldable pub parse_int : Text → Option ℕ
parse_int part = signed (drop_while is_space part)
  where
    signed : Text → Option ℕ
    signed [] = none
    signed (u ∷ t) =
        if u == b'+' then digits t else if u == b'-' then only_zero (digits t) else digits (u ∷ t)

unfoldable pub parse_octet : Text → Option ℕ
parse_octet part = within (parse_int part)
  where
    within : Option ℕ → Option ℕ
    within none = none
    within (some n) = if leb n 255 then some n else none

abbrev octets_of : Option ℕ → Option ℕ → Option ℕ → Option ℕ → Option Octets
octets_of (some a) (some b) (some c) (some d) = some (record { a = a; b = b; c = c; d = d })
octets_of _ _ _ _ = none

abbrev four_parts : List Text → Option Octets
four_parts (p ∷ (q ∷ (r ∷ (s ∷ [])))) =
    octets_of (parse_octet p) (parse_octet q) (parse_octet r) (parse_octet s)
four_parts _ = none

unfoldable pub parse_ipv4 : Text → Option Octets
parse_ipv4 address = four_parts (split_on b'.' address)

-- One of the tests holds.
unfoldable pub are_blocked : ℕ → ℕ → ℕ → Bool
are_blocked a b c =
    any (λ test. test)
      ((a == 0)
        ∷ (a == 10)
        ∷ (a == 127)
        ∷ (a == 169 && b == 254)
        ∷ (a == 172 && leb 16 b && leb b 31)
        ∷ (a == 192 && b == 0 && c == 0)
        ∷ (a == 192 && b == 0 && c == 2)
        ∷ (a == 192 && b == 88 && c == 99)
        ∷ (a == 192 && b == 168)
        ∷ (a == 100 && leb 64 b && leb b 127)
        ∷ (a == 198 && (b == 18 || b == 19))
        ∷ (a == 198 && b == 51 && c == 100)
        ∷ (a == 203 && b == 0 && c == 113)
        ∷ (leb 224 a)
        ∷ [])

unfoldable pub is_blocked_ipv4 : Text → Bool
is_blocked_ipv4 address = blocked (parse_ipv4 address)
  where
    blocked : Option Octets → Bool
    blocked none = true
    blocked (some o) = are_blocked o.a o.b o.c
