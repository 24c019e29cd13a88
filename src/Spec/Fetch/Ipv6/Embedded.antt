-- ===== src/Spec/Fetch/Ipv6/Embedded.antt =====
-- Addresses of version 4 inside of version 6 (src/lib/spec/safe-spec-fetch.ts, embeddedIPv4).
use postman_bootstrap_action.Base.{
  ℕ, ◌/◌, ◌%◌, ◌<◌, Bool, true, false, not, ◌&&◌, Option, none, some, List, [], ◌∷◌, ◌++◌, Text,
  codes, Text-discrete, ◌==◌, all, split_on, is_empty, is_space, drop_while, ◌≡◌, refl, ap, ◌∙◌,
  arith, if◌then◌else◌,
}
use postman_bootstrap_action.Base.Tables.{check_bytes, check_bytes_at, check_words, check_words_at}
use postman_bootstrap_action.Spec.Fetch.Ipv4.{
  digits_from, digits, parse_int, parse_octet, parse_ipv4, are_blocked, is_blocked_ipv4,
}
use postman_bootstrap_action.Spec.Fetch.Ipv6.{
  hex_from, parse_hex, to_hex, to_decimal, pad4, is_masked, is_special_prefix, is_number, quad,
  embedded_ipv4, is_mapped, is_compatible, is_blocked_embedded, are_blocked_parts,
}

is_number-some : (o : Option ℕ) (n : ℕ) → is_number n o ≡ true → o ≡ some n
is_number-some none n h = absurd (cc)
is_number-some (some m) n h = ap some (ground arith)

hex_table : check_words (λ n. is_number n (parse_hex (pad4 (to_hex n)))) ≡ true
unfolding parse_hex hex_from pad4 to_hex
hex_table = refl

pub parse_hex-pad4 : (n : ℕ) → n < 65536 → parse_hex (pad4 (to_hex n)) ≡ some n
parse_hex-pad4 n h =
    is_number-some _ n
      (check_words_at (λ n. is_number n (parse_hex (pad4 (to_hex n)))) n hex_table h)

decimal_table : check_bytes (λ n. is_number n (parse_octet (to_decimal n))) ≡ true
unfolding parse_octet parse_int digits digits_from to_decimal drop_while is_space
decimal_table = refl

parse_octet-to_decimal : (n : ℕ) → n < 256 → parse_octet (to_decimal n) ≡ some n
parse_octet-to_decimal n h =
    is_number-some _ n
      (check_bytes_at (λ n. is_number n (parse_octet (to_decimal n))) n decimal_table h)

abbrev has_no_dot : Text → Bool
has_no_dot = all (λ c. not (c == b'.'))

dot_table : check_bytes (λ n. has_no_dot (to_decimal n) && not (is_empty (to_decimal n))) ≡ true
unfolding to_decimal
dot_table = refl

to_decimal-dotless :
    (n : ℕ) → n < 256 → (has_no_dot (to_decimal n) && not (is_empty (to_decimal n))) ≡ true
to_decimal-dotless n h =
    check_bytes_at (λ n. has_no_dot (to_decimal n) && not (is_empty (to_decimal n))) n dot_table h

split_on-dotless : (t : Text) → has_no_dot t ≡ true → split_on b'.' t ≡ t ∷ []
unfolding split_on
split_on-dotless [] h = refl
split_on-dotless (c ∷ t) h = ground (arith, split_on-dotless t)

split_on-append :
    (t u : Text) → has_no_dot t ≡ true → split_on b'.' (t ++ (b'.' ∷ u)) ≡ t ∷ split_on b'.' u
unfolding split_on
split_on-append [] u h = refl
split_on-append (c ∷ t) u h = ground (arith, split_on-append t u)

dotless : (n : ℕ) → n < 256 → has_no_dot (to_decimal n) ≡ true
dotless n h = let both = to_decimal-dotless n h in ground arith

is_empty-append : (t u : Text) → is_empty t ≡ false → is_empty (t ++ u) ≡ false
is_empty-append [] u h = absurd (cc)
is_empty-append (c ∷ t) u h = refl

quad-is_empty : (high low : ℕ) → high < 65536 → is_empty (quad high low) ≡ false
quad-is_empty high low h =
    is_empty-append (to_decimal (high / 256)) _
      (let both = to_decimal-dotless (high / 256) (omega arith) in ground arith)

split_on-quad :
    (high low : ℕ)
    → high < 65536
    → low < 65536
    → split_on b'.' (quad high low)
      ≡ to_decimal (high / 256)
        ∷ to_decimal (high % 256)
        ∷ to_decimal (low / 256)
        ∷ to_decimal (low % 256)
        ∷ []
split_on-quad high low hh hl =
    split_on-append (to_decimal (high / 256)) _ (dotless (high / 256) (omega arith))
    ∙ ap (λ z. to_decimal (high / 256) ∷ z)
        (split_on-append (to_decimal (high % 256)) _ (dotless (high % 256) (omega arith))
          ∙ ap (λ z. to_decimal (high % 256) ∷ z)
              (split_on-append (to_decimal (low / 256)) _ (dotless (low / 256) (omega arith))
                ∙ ap (λ z. to_decimal (low / 256) ∷ z)
                    (split_on-dotless (to_decimal (low % 256))
                      (dotless (low % 256) (omega arith)))))

parse_ipv4-quad :
    (high low : ℕ)
    → high < 65536
    → low < 65536
    → parse_ipv4 (quad high low)
      ≡ some (record { a = high / 256; b = high % 256; c = low / 256; d = low % 256 })
unfolding parse_ipv4
parse_ipv4-quad high low hh hl = rw (split_on-quad high low hh hl) (
    rw (parse_octet-to_decimal (high / 256) (omega arith)) (
      rw (parse_octet-to_decimal (high % 256) (omega arith)) (
        rw (parse_octet-to_decimal (low / 256) (omega arith))
          (rw (parse_octet-to_decimal (low % 256) (omega arith)) refl))))

blocked_quad :
    (high low : ℕ)
    → high < 65536
    → low < 65536
    → is_blocked_embedded (some (quad high low)) ≡ are_blocked (high / 256) (high % 256) (low / 256)
unfolding is_blocked_embedded is_blocked_ipv4
blocked_quad high low hh hl =
    rw (quad-is_empty high low hh) (rw (parse_ipv4-quad high low hh hl) refl)

-- The eight parts of the address ::ffff:a.b.c.d, or of ::a.b.c.d.
abbrev pub embedding : Text → ℕ → ℕ → List Text
embedding marker high low =
    codes "0000"
    ∷ codes "0000"
    ∷ codes "0000"
    ∷ codes "0000"
    ∷ codes "0000"
    ∷ marker
    ∷ pad4 (to_hex high)
    ∷ pad4 (to_hex low)
    ∷ []

embedded_ipv4-embedding :
    (marker : Text) (high low : ℕ)
    → high < 65536
    → low < 65536
    → embedded_ipv4 (embedding marker high low) ≡ some (quad high low)
unfolding embedded_ipv4
embedded_ipv4-embedding marker high low hh hl =
    rw (parse_hex-pad4 high hh) (rw (parse_hex-pad4 low hl) refl)

-- An address of version 4 that is mapped into version 6, or written as a compatible address, is
-- blocked exactly when it is blocked by itself. Given the two hextets that hold it.
pub are_blocked_parts-embedding :
    (mapped : Bool) (high low : ℕ)
    → high < 65536
    → low < 65536
    → are_blocked_parts (embedding (if mapped then codes "ffff" else codes "0000") high low)
      ≡ are_blocked (high / 256) (high % 256) (low / 256)
unfolding are_blocked_parts is_special_prefix is_masked parse_hex hex_from is_mapped is_compatible
    Text-discrete
are_blocked_parts-embedding true high low hh hl =
    rw (embedded_ipv4-embedding (codes "ffff") high low hh hl) (blocked_quad high low hh hl)
are_blocked_parts-embedding false high low hh hl =
    rw (embedded_ipv4-embedding (codes "0000") high low hh hl) (blocked_quad high low hh hl)
