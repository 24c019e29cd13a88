-- ===== src/Spec/Fetch/Ipv6/Prefixes.antt =====
-- The masks of the first hextet as ranges (src/lib/spec/safe-spec-fetch.ts, isBlockedIPv6).
use Prim.Native.Nat.{bit_and}
use postman_bootstrap_action.Base.{
  ℕ, ◌<◌, Bool, true, false, ◌&&◌, ◌||◌, some, List, [], ◌∷◌, Text, ◌==◌, leb, any, take, ◌≡◌, refl,
  ap, arith,
}
use postman_bootstrap_action.Base.Tables.{check_words, check_words_at, same, same_eq}
use postman_bootstrap_action.Spec.Fetch.Ipv6.{is_masked, is_special_prefix, are_zero, drop_first}

abbrev pub is_between : ℕ → ℕ → ℕ → Bool
is_between low high n = leb low n && leb n high

masked_range :
    (mask low high : ℕ)
    → check_words (λ n. same (bit_and n mask == low) (is_between low high n)) ≡ true
    → (n : ℕ) → n < 65536
    → is_masked mask low (some n) ≡ is_between low high n
unfolding is_masked
masked_range mask low high table n h =
    same_eq _ _
      (check_words_at (λ n. same (bit_and n mask == low) (is_between low high n)) n table h)

unique_local : (n : ℕ) → n < 65536 → is_masked 0xfe00 0xfc00 (some n) ≡ is_between 0xfc00 0xfdff n
unique_local = masked_range 0xfe00 0xfc00 0xfdff refl

link_local : (n : ℕ) → n < 65536 → is_masked 0xffc0 0xfe80 (some n) ≡ is_between 0xfe80 0xfebf n
link_local = masked_range 0xffc0 0xfe80 0xfebf refl

site_local : (n : ℕ) → n < 65536 → is_masked 0xffc0 0xfec0 (some n) ≡ is_between 0xfec0 0xfeff n
site_local = masked_range 0xffc0 0xfec0 0xfeff refl

multicast : (n : ℕ) → n < 65536 → is_masked 0xff00 0xff00 (some n) ≡ is_between 0xff00 0xffff n
multicast = masked_range 0xff00 0xff00 0xffff refl

-- The three upper ranges are one.
upper :
    (n : ℕ) (rest : Bool)
    → (is_between 0xfe80 0xfebf n
        || (is_between 0xfec0 0xfeff n || (is_between 0xff00 0xffff n || rest)))
      ≡ (is_between 0xfe80 0xffff n || rest)
upper n true = ground arith
upper n false = ground arith

-- Given the first two hextets, the tests of the prefixes block exactly fc00::/7, fe80::/10,
-- fec0::/10 and ff00::/8 by the range of the first, 64:ff9b::/32, 100::/64 (which asks for three
-- hextets of zero), 2001::/23, 2001:db8::/32 and 2002::/16.
pub is_special_prefix-ranges :
    (first second : ℕ) (parts : List Text)
    → first < 65536
    → is_special_prefix (some first) (some second) parts
      ≡ any
          (λ test. test)
          (is_between 0xfc00 0xfdff first
            ∷ is_between 0xfe80 0xffff first
            ∷ (first == 0x64 && second == 0xff9b)
            ∷ (first == 0x100 && are_zero (take 3 (drop_first parts)))
            ∷ (first == 0x2001 && leb second 0x1ff)
            ∷ (first == 0x2001 && second == 0xdb8)
            ∷ (first == 0x2002)
            ∷ [])
unfolding is_special_prefix
is_special_prefix-ranges first second parts h = rw (unique_local first h) (
    rw (link_local first h) (
      rw (site_local first h)
        (rw (multicast first h) (ap (λ b. is_between 0xfc00 0xfdff first || b) (upper first _)))))
