-- ===== src/Spec/Fetch/Ipv4/Ranges.antt =====
-- The blocked addresses as ranges of 32-bit numbers (src/lib/spec/safe-spec-fetch.ts).
use postman_bootstrap_action.Base.{
  ℕ, ◌+◌, ◌*◌, ◌≤◌, Bool, false, ◌&&◌, ◌||◌, List, [], ◌∷◌, ◌==◌, ltb, leb, any, ◌≡◌, ap, ap₂,
  arith,
}
use postman_bootstrap_action.Spec.Fetch.Ipv4.{are_blocked}

-- The address as a number of 32 bits, the first octet the highest.
abbrev pub number : ℕ → ℕ → ℕ → ℕ → ℕ
number a b c d = a * 16777216 + b * 65536 + c * 256 + d

abbrev pub is_in : ℕ → ℕ → ℕ → Bool
is_in n first size = leb first n && ltb n (first + size)

in_8 :
    (x a b c d : ℕ)
    → b ≤ 255
    → c ≤ 255
    → d ≤ 255
    → (a == x) ≡ is_in (number a b c d) (x * 16777216) 16777216
in_8 x a b c d hb hc hd = ground arith

in_16 :
    (x y a b c d : ℕ)
    → y ≤ 255
    → b ≤ 255
    → c ≤ 255
    → d ≤ 255
    → (a == x && b == y) ≡ is_in (number a b c d) (x * 16777216 + y * 65536) 65536
in_16 x y a b c d hy hb hc hd = ground arith

in_24 :
    (x y z a b c d : ℕ)
    → y ≤ 255
    → z ≤ 255
    → b ≤ 255
    → c ≤ 255
    → d ≤ 255
    → (a == x && b == y && c == z) ≡ is_in (number a b c d) (x * 16777216 + y * 65536 + z * 256) 256
in_24 x y z a b c d hy hz hb hc hd = ground arith

in_12 :
    (x a b c d : ℕ)
    → b ≤ 255
    → c ≤ 255
    → d ≤ 255
    → (a == x && leb 16 b && leb b 31)
      ≡ is_in (number a b c d) (x * 16777216 + 16 * 65536) (16 * 65536)
in_12 x a b c d hb hc hd = ground arith

in_10 :
    (x a b c d : ℕ)
    → b ≤ 255
    → c ≤ 255
    → d ≤ 255
    → (a == x && leb 64 b && leb b 127)
      ≡ is_in (number a b c d) (x * 16777216 + 64 * 65536) (64 * 65536)
in_10 x a b c d hb hc hd = ground arith

in_15 :
    (x a b c d : ℕ)
    → b ≤ 255
    → c ≤ 255
    → d ≤ 255
    → (a == x && (b == 18 || b == 19))
      ≡ is_in (number a b c d) (x * 16777216 + 18 * 65536) (2 * 65536)
in_15 x a b c d hb hc hd = ground arith

-- From 224.0.0.0 to the last address.
in_top :
    (a b c d : ℕ)
    → a ≤ 255
    → b ≤ 255
    → c ≤ 255
    → d ≤ 255
    → leb 224 a ≡ is_in (number a b c d) (224 * 16777216) (32 * 16777216)
in_top a b c d ha hb hc hd = ground arith

-- The special ranges: the first address of each and how many there are. In the order of the tests:
-- this network, private, loopback, link-local, private, protocol assignments, documentation, relays,
-- private, shared, benchmarks, documentation twice, and multicast with all that is reserved.
abbrev pub special_ranges : List (ℕ × ℕ)
special_ranges =
    (0 * 16777216, 16777216)
    ∷ (10 * 16777216, 16777216)
    ∷ (127 * 16777216, 16777216)
    ∷ (169 * 16777216 + 254 * 65536, 65536)
    ∷ (172 * 16777216 + 16 * 65536, 16 * 65536)
    ∷ (192 * 16777216 + 0 * 65536 + 0 * 256, 256)
    ∷ (192 * 16777216 + 0 * 65536 + 2 * 256, 256)
    ∷ (192 * 16777216 + 88 * 65536 + 99 * 256, 256)
    ∷ (192 * 16777216 + 168 * 65536, 65536)
    ∷ (100 * 16777216 + 64 * 65536, 64 * 65536)
    ∷ (198 * 16777216 + 18 * 65536, 2 * 65536)
    ∷ (198 * 16777216 + 51 * 65536 + 100 * 256, 256)
    ∷ (203 * 16777216 + 0 * 65536 + 113 * 256, 256)
    ∷ (224 * 16777216, 32 * 16777216)
    ∷ []

-- The tests of the octets block exactly the addresses in the special ranges: an address, read as a
-- number of 32 bits, is blocked if and only if it lies in 0.0.0.0/8, 10.0.0.0/8, 127.0.0.0/8,
-- 169.254.0.0/16, 172.16.0.0/12, 192.0.0.0/24, 192.0.2.0/24, 192.88.99.0/24, 192.168.0.0/16,
-- 100.64.0.0/10, 198.18.0.0/15, 198.51.100.0/24, 203.0.113.0/24 or from 224.0.0.0 on.
pub are_blocked-special_ranges :
    (a b c d : ℕ)
    → a ≤ 255
    → b ≤ 255
    → c ≤ 255
    → d ≤ 255
    → are_blocked a b c ≡ any (λ (r : ℕ × ℕ). is_in (number a b c d) r.0 r.1) special_ranges
unfolding are_blocked
are_blocked-special_ranges a b c d ha hb hc hd = ap₂ ◌||◌ (in_8 0 a b c d hb hc hd) (
    ap₂ ◌||◌ (in_8 10 a b c d hb hc hd) (
      ap₂ ◌||◌ (in_8 127 a b c d hb hc hd) (
        ap₂ ◌||◌ (in_16 169 254 a b c d (omega arith) hb hc hd) (
          ap₂ ◌||◌ (in_12 172 a b c d hb hc hd) (
            ap₂ ◌||◌ (in_24 192 0 0 a b c d (omega arith) (omega arith) hb hc hd) (
              ap₂ ◌||◌ (in_24 192 0 2 a b c d (omega arith) (omega arith) hb hc hd) (
                ap₂ ◌||◌ (in_24 192 88 99 a b c d (omega arith) (omega arith) hb hc hd) (
                  ap₂ ◌||◌ (in_16 192 168 a b c d (omega arith) hb hc hd) (
                    ap₂ ◌||◌ (in_10 100 a b c d hb hc hd) (
                      ap₂ ◌||◌ (in_15 198 a b c d hb hc hd) (
                        ap₂ ◌||◌ (in_24 198 51 100 a b c d (omega arith) (omega arith) hb hc hd) (
                          ap₂ ◌||◌ (in_24 203 0 113 a b c d (omega arith) (omega arith) hb hc hd)
                            (ap (λ t. t || false) (in_top a b c d ha hb hc hd))))))))))))))
