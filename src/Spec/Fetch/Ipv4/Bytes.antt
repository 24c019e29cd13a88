-- ===== src/Spec/Fetch/Ipv4/Bytes.antt =====
-- The numbers of an address of version 4 are bytes (src/lib/spec/safe-spec-fetch.ts, parseIPv4).
use postman_bootstrap_action.Base.{
  ℕ, ◌≤◌, Option, none, some, List, [], ◌∷◌, Text, split_on, ◌≡◌, subst, arith,
}
use postman_bootstrap_action.Spec.Fetch.Ipv4.{
  Octets, parse_octet, octets_of, four_parts, parse_ipv4,
}

abbrev pub AreBytes : Octets → Type 0
AreBytes o = (o.a ≤ 255) × ((o.b ≤ 255) × ((o.c ≤ 255) × (o.d ≤ 255)))

abbrev IsByte : Option ℕ → Type 0
IsByte none = Unit
IsByte (some n) = n ≤ 255

abbrev HasBytes : Option Octets → Type 0
HasBytes none = Unit
HasBytes (some o) = AreBytes o

parse_octet-IsByte : (part : Text) → IsByte (parse_octet part)
unfolding parse_octet
parse_octet-IsByte part = ground arith

octets_of-HasBytes :
    (p q r s : Option ℕ) → IsByte p → IsByte q → IsByte r → IsByte s → HasBytes (octets_of p q r s)
octets_of-HasBytes (some a) (some b) (some c) (some d) ha hb hc hd = (ha, (hb, (hc, hd)))
octets_of-HasBytes none q r s ha hb hc hd = tt
octets_of-HasBytes (some a) none r s ha hb hc hd = tt
octets_of-HasBytes (some a) (some b) none s ha hb hc hd = tt
octets_of-HasBytes (some a) (some b) (some c) none ha hb hc hd = tt

four_parts-HasBytes : (parts : List Text) → HasBytes (four_parts parts)
four_parts-HasBytes [] = tt
four_parts-HasBytes (p ∷ []) = tt
four_parts-HasBytes (p ∷ (q ∷ [])) = tt
four_parts-HasBytes (p ∷ (q ∷ (r ∷ []))) = tt
four_parts-HasBytes (p ∷ (q ∷ (r ∷ (s ∷ [])))) =
    octets_of-HasBytes (parse_octet p) (parse_octet q) (parse_octet r) (parse_octet s)
      (parse_octet-IsByte p) (parse_octet-IsByte q) (parse_octet-IsByte r) (parse_octet-IsByte s)
four_parts-HasBytes (p ∷ (q ∷ (r ∷ (s ∷ (t ∷ ts))))) = tt

pub parse_ipv4-AreBytes : (address : Text) {o : Octets} → parse_ipv4 address ≡ some o → AreBytes o
unfolding parse_ipv4
parse_ipv4-AreBytes address h = subst HasBytes h (four_parts-HasBytes (split_on b'.' address))
