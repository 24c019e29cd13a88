-- ===== src/Spec/Fetch/Ipv6/Tests.antt =====
-- Addresses as texts, and instances of the laws of their parts.
use postman_bootstrap_action.Base.{
  ℕ, true, false, some, [], ◌∷◌, Text, Text-discrete, codes, includes, starts_with, any, split_on,
  trim, drop_while, drop_last_while, is_space, leb, take, ◌==◌, ◌&&◌, ◌≡◌, refl, arith,
  if◌then◌else◌,
}
use postman_bootstrap_action.Spec.Fetch.Ipv4.{
  digits, digits_from, parse_int, parse_octet, parse_ipv4, are_blocked, is_blocked_ipv4,
}
use postman_bootstrap_action.Spec.Fetch.Ipv6.{
  hex_from, parse_hex, to_hex, to_decimal, is_dotted, split_last_colon, hextets, convert_tail,
  dotted_ipv4_tail_to_hextets, embedded_ipv4, cut_double, pad4, expand_parts, is_masked,
  is_special_prefix, is_mapped, is_compatible, is_blocked_embedded, are_blocked_parts, expand_ipv6,
  is_blocked_ipv6, canonical_parts, normalize_ip_address, is_blocked_address, are_zero, drop_first,
}
use postman_bootstrap_action.Spec.Fetch.Ipv6.Prefixes.{is_between, is_special_prefix-ranges}
use postman_bootstrap_action.Spec.Fetch.Ipv6.Embedded.{embedding, are_blocked_parts-embedding}

abbrev lower : Text → Text
lower t = t

abbrev kind : Text → ℕ
kind t = if includes (codes ":") t then 6 else 4

blocked_texts :
    (normalize_ip_address lower kind (codes "::ffff:127.0.0.1") ≡ codes "127.0.0.1")
    × (is_blocked_address lower kind (codes "::ffff:10.1.2.3") ≡ true)
    × (is_blocked_address lower kind (codes "fe80::1%eth0") ≡ true)
    × (is_blocked_address lower kind (codes "::1") ≡ true)
    × (normalize_ip_address lower kind (codes "2606:4700::1111")
        ≡ codes "2606:4700:0000:0000:0000:0000:0000:1111")
    × (is_blocked_address lower kind (codes "2606:4700::1111") ≡ false)
unfolding is_blocked_address normalize_ip_address canonical_parts is_blocked_ipv6 expand_ipv6
    are_blocked_parts is_blocked_embedded is_compatible is_mapped is_special_prefix is_masked
    expand_parts pad4 cut_double embedded_ipv4 dotted_ipv4_tail_to_hextets convert_tail hextets
    split_last_colon is_dotted to_decimal to_hex parse_hex hex_from is_blocked_ipv4 are_blocked
    parse_ipv4 parse_octet parse_int digits digits_from includes starts_with split_on trim
    drop_while drop_last_while is_space Text-discrete
blocked_texts = (refl, refl, refl, refl, refl, refl)

are_blocked_parts-embedding_example :
    are_blocked_parts (embedding (codes "ffff") 0x7f00 1) ≡ are_blocked 127 0 0
are_blocked_parts-embedding_example =
    are_blocked_parts-embedding true 0x7f00 1 (omega arith) (omega arith)

is_special_prefix-ranges_example :
    is_special_prefix (some 0xfd12) (some 7) []
    ≡ any
        (λ test. test)
        (is_between 0xfc00 0xfdff 0xfd12
          ∷ is_between 0xfe80 0xffff 0xfd12
          ∷ (0xfd12 == 0x64 && 7 == 0xff9b)
          ∷ (0xfd12 == 0x100 && are_zero (take 3 (drop_first [])))
          ∷ (0xfd12 == 0x2001 && leb 7 0x1ff)
          ∷ (0xfd12 == 0x2001 && 7 == 0xdb8)
          ∷ (0xfd12 == 0x2002)
          ∷ [])
is_special_prefix-ranges_example = is_special_prefix-ranges 0xfd12 7 [] (omega arith)
