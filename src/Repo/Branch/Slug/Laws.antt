-- ===== src/Repo/Branch/Slug/Laws.antt =====
-- What the branch slugs satisfy: their alphabet and length, when nothing is lost, and what two
-- branches with one suffix have in common.
use postman_bootstrap_action.Base.{
  ℕ, true, false, [], ◌∷◌, ◌++◌, map, Text, Text-discrete, all, take, length, length-append,
  length-take, length-take_le, take_of_le, all-take, all-append, is_space, ◌≡◌, ◌≢◌, ◌↔◌, refl, sym,
  subst, ap, ◌∙◌, ◌≤◌, arith, append-injective,
}
use postman_bootstrap_action.Repo.Branch.Slug.{
  is_slug_char, is_dash, replace_runs, to_slug_char, strip_heads, sanitize, truncated, hash6,
  make_slug, build_branch_slug,
}
use postman_bootstrap_action.Repo.Branch.Slug.Runs.{
  singles, singles-replace_runs, replace_runs_of_singles, replace_runs_of_all, length-replace_runs,
  all-replace_runs, all-to_slug_char, map-to_slug_char_of_all,
}
use postman_bootstrap_action.Repo.Branch.Slug.Edges.{
  first_ok, last_ok, trim_edges_ends, trim_edges_keeps, length-trim_edges, trim_edges_of_ok,
}

-- Only slug characters, no two dashes in a row, and no dot, underscore or dash at either end.
pub record IsSanitized (t : Text) : Type 0 where
  pub chars : all is_slug_char t ≡ true
  pub singled : singles false t ≡ true
  pub first : first_ok t ≡ true
  pub last : last_ok t ≡ true

pub sanitize-IsSanitized : (t : Text) → IsSanitized (sanitize t)
unfolding sanitize
sanitize-IsSanitized t =
    let marked = map to_slug_char (replace_runs is_space false t) in
    let dashed = replace_runs is_dash false marked in
    let (chars, singled) =
      trim_edges_keeps is_slug_char dashed (all-replace_runs false marked (all-to_slug_char _))
        (singles-replace_runs false marked) in
    let (first, last) = trim_edges_ends dashed in
    record { chars = chars; singled = singled; first = first; last = last }

pub sanitize_of_IsSanitized : (t : Text) → IsSanitized t → sanitize t ≡ t
unfolding sanitize
sanitize_of_IsSanitized t h = rw (replace_runs_of_all false t h.chars) (
    rw (map-to_slug_char_of_all t h.chars)
      (rw (replace_runs_of_singles false t h.singled) (trim_edges_of_ok t h.first h.last)))

length-map : (f : ℕ → ℕ) (t : Text) → length (map f t) ≡ length t
length-map f [] = refl
length-map f (c ∷ t) = omega (arith, length-map f t)

pub length-sanitize : (t : Text) → length (sanitize t) ≤ length t
unfolding sanitize
length-sanitize t =
    let spaced = replace_runs is_space false t in
    let marked = map to_slug_char spaced in
    omega (
      arith,
      length-trim_edges (replace_runs is_dash false marked),
      length-replace_runs is_dash false marked,
      length-map to_slug_char spaced,
      length-replace_runs is_space false t,
    )

-- Sanitizing a second time changes nothing.
pub sanitize_idempotent : (t : Text) → sanitize (sanitize t) ≡ sanitize t
sanitize_idempotent t = sanitize_of_IsSanitized (sanitize t) (sanitize-IsSanitized t)

truncated_self_iff : (t : Text) → (take 30 (sanitize t) ≡ t) ↔ (IsSanitized t × (length t ≤ 30))
truncated_self_iff t = (λ e. whole e, λ h. kept h.0 h.1)
  where
    whole : take 30 (sanitize t) ≡ t → IsSanitized t × (length t ≤ 30)
    whole e =
        let short : length t ≤ 30 = omega (arith, ap length e, length-take_le 30 (sanitize t)) in
        let same : sanitize t ≡ t =
          sym (take_of_le 30 (sanitize t) (omega (arith, length-sanitize t))) ∙ e in
        (subst IsSanitized same (sanitize-IsSanitized t), short)

    kept : IsSanitized t → length t ≤ 30 → take 30 (sanitize t) ≡ t
    kept h short = rw (sanitize_of_IsSanitized t h) (take_of_le 30 t short)

make_slug_bounds :
    (t n h : Text)
    → length t ≤ 30
    → all is_slug_char t ≡ true
    → length h ≤ 6
    → all is_slug_char h ≡ true
    → let s = make_slug t n h in
      (length s.slug ≤ 30)
      × (all is_slug_char s.slug ≡ true)
      × (length s.suffix ≤ 37)
      × (all is_slug_char s.suffix ≡ true)
unfolding make_slug is_slug_char
make_slug_bounds t n h lt at lh ah = elim (Text-discrete t n) [
  | yes same ↦ ground arith
  | no differ ↦ ground (arith, length-append t (b'-' ∷ h), all-append is_slug_char t (b'-' ∷ h))
]

make_slug_lossy :
    (t n h : Text)
    → (make_slug t n h).lossy ≡ true
    → ((make_slug t n h).suffix ≡ t ++ b'-' ∷ h) × ((make_slug t n h).slug ≡ t)
unfolding make_slug
make_slug_lossy t n h e = ground arith

make_slug_self : (t h : Text) → (make_slug t t h).suffix ≡ t
unfolding make_slug
make_slug_self t h = ground arith

make_slug_lossless : (t n h : Text) → ((make_slug t n h).lossy ≡ false) ↔ (t ≡ n)
unfolding make_slug
make_slug_lossless t n h = ground arith

module _ (sha256_hex : Text → Text) where
  -- Nothing is lost exactly if the branch name, without `refs/heads/`, has at most 30 code units, all
  -- of them letters, digits, dots, underscores or dashes, with no two dashes in a row and none of
  -- `.`, `_`, `-` at either end.
  pub build_branch_slug_lossless :
      (raw : Text)
      → ((build_branch_slug sha256_hex raw).lossy ≡ false)
        ↔ (IsSanitized (strip_heads raw) × (length (strip_heads raw) ≤ 30))
  unfolding build_branch_slug
  build_branch_slug_lossless raw =
      let same = make_slug_lossless (truncated raw) (strip_heads raw) (hash6 sha256_hex raw) in
      let plain = truncated_self_iff (strip_heads raw) in
      (λ e. plain.0 (same.0 e), λ h. same.1 (plain.1 h))

  -- The slug has at most 30 code units, all of them slug characters; where the hash is made of slug
  -- characters, the suffix has at most 37, of the same alphabet.
  pub build_branch_slug_bounds :
      (raw : Text)
      → all is_slug_char (sha256_hex raw) ≡ true
      → let s = build_branch_slug sha256_hex raw in
        (length s.slug ≤ 30)
        × (all is_slug_char s.slug ≡ true)
        × (length s.suffix ≤ 37)
        × (all is_slug_char s.suffix ≡ true)
  unfolding build_branch_slug is_slug_char
  build_branch_slug_bounds raw h =
      let t = sanitize (strip_heads raw) in
      make_slug_bounds (truncated raw) (strip_heads raw) (hash6 sha256_hex raw)
        (length-take_le 30 t)
        (all-take is_slug_char 30 t (sanitize-IsSanitized (strip_heads raw)).chars)
        (length-take_le 6 (sha256_hex raw)) (all-take is_slug_char 6 (sha256_hex raw) h)

  -- Two branches whose slugs lose something, with hashes of six units at least, have one suffix only if the slugs are equal
  -- and so are the first six units of the hashes.
  pub build_branch_slug_lossy_injective :
      (a b : Text)
      → 6 ≤ length (sha256_hex a)
      → 6 ≤ length (sha256_hex b)
      → (build_branch_slug sha256_hex a).lossy ≡ true
      → (build_branch_slug sha256_hex b).lossy ≡ true
      → (build_branch_slug sha256_hex a).suffix ≡ (build_branch_slug sha256_hex b).suffix
      → ((build_branch_slug sha256_hex a).slug ≡ (build_branch_slug sha256_hex b).slug)
        × (hash6 sha256_hex a ≡ hash6 sha256_hex b)
  unfolding build_branch_slug
  build_branch_slug_lossy_injective a b la lb fa fb e =
      let (suffix_a, slug_a) = make_slug_lossy (truncated a) (strip_heads a) _ fa in
      let (suffix_b, slug_b) = make_slug_lossy (truncated b) (strip_heads b) _ fb in
      let (slugs, ends) =
        append-injective (truncated a) (truncated b) (b'-' ∷ hash6 sha256_hex a)
          (b'-' ∷ hash6 sha256_hex b)
          (omega (arith, length-take 6 (sha256_hex a) la, length-take 6 (sha256_hex b) lb))
          (sym suffix_a ∙ e ∙ suffix_b) in
      (slug_a ∙ slugs ∙ sym slug_b, cc)

  suffix-lossy :
      (raw : Text)
      → (build_branch_slug sha256_hex raw).lossy ≡ true
      → (build_branch_slug sha256_hex raw).suffix ≡ truncated raw ++ b'-' ∷ hash6 sha256_hex raw
  unfolding build_branch_slug
  suffix-lossy raw lost =
      (make_slug_lossy (truncated raw) (strip_heads raw) (hash6 sha256_hex raw) lost).0

  suffix-lossless :
      (raw : Text)
      → IsSanitized (strip_heads raw)
      → length (strip_heads raw) ≤ 30
      → (build_branch_slug sha256_hex raw).suffix ≡ strip_heads raw
  unfolding build_branch_slug
  suffix-lossless raw fits short =
      rw ((truncated_self_iff (strip_heads raw)).1 (fits, short))
        (make_slug_self (strip_heads raw) (hash6 sha256_hex raw))

  -- A name of at most 30 units that is its own slug is not the name of a branch that loses something.
  lossy-differs :
      (raw s : Text)
      → (build_branch_slug sha256_hex raw).lossy ≡ true
      → IsSanitized s
      → length s ≤ 30
      → s ≢ strip_heads raw
  lossy-differs raw s lost fits short same =
      let lossless : (build_branch_slug sha256_hex raw).lossy ≡ false =
        (build_branch_slug_lossless raw).1
          (subst IsSanitized same fits, subst (λ t. length t ≤ 30) same short) in
      cc

  -- A branch whose slug lost something gets the slug, a dash and six units of the hash as its suffix.
  -- If that text is a sanitized name of at most 30 units, not under `refs/heads/`, then the branch of
  -- that name is another one and has the same suffix, without a loss and whatever its hash.
  pub build_branch_slug_collides :
      (raw : Text)
      → let s = truncated raw ++ b'-' ∷ hash6 sha256_hex raw in
        (build_branch_slug sha256_hex raw).lossy ≡ true
        → strip_heads s ≡ s
        → IsSanitized s
        → length s ≤ 30
        → (strip_heads s ≢ strip_heads raw)
          × (((build_branch_slug sha256_hex raw).suffix ≡ s)
              × (((build_branch_slug sha256_hex s).suffix ≡ s)
                  × ((build_branch_slug sha256_hex s).lossy ≡ false)))
  build_branch_slug_collides raw lost bare fits short =
      let s = truncated raw ++ b'-' ∷ hash6 sha256_hex raw in
      (
        (λ same. lossy-differs raw s lost fits short (sym bare ∙ same)),
        (
          suffix-lossy raw lost,
          (
            suffix-lossless s (subst IsSanitized (sym bare) fits)
                  (subst (λ t. length t ≤ 30) (sym bare) short)
                ∙ bare,
            (build_branch_slug_lossless s).1
                (subst IsSanitized (sym bare) fits, subst (λ t. length t ≤ 30) (sym bare) short),
          ),
        ),
      )
