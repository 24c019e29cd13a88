-- ===== src/Repo/Branch/Slug.antt =====
-- src/lib/repo/branch-decision.ts: the suffix of a preview asset's name, and the asset names.
pub mod Runs
pub mod Edges
pub mod Laws
mod Tests
use postman_bootstrap_action.Base.{
  ℕ, Bool, true, false, not, ◌||◌, Option, none, some, [], ◌∷◌, ◌++◌, map, Text, codes, ◌===◌, ◌==◌,
  take, is_letter, is_digit, is_space, strip_prefix, drop_while, drop_last_while, if◌then◌else◌,
}

-- Longest slug, in code units, before the hash.
abbrev pub preview_slug_max : ℕ
preview_slug_max = 30

-- `/[A-Za-z0-9._-]/`
unfoldable pub is_slug_char : ℕ → Bool
is_slug_char c = is_letter c || is_digit c || c == b'.' || c == b'_' || c == b'-'

unfoldable pub is_dash : ℕ → Bool
is_dash c = c == b'-'

-- `/[._-]/`
unfoldable pub is_edge : ℕ → Bool
is_edge c = c == b'.' || c == b'_' || c == b'-'

-- `.replace(/p+/g, '-')`: each maximal run becomes one dash. The flag says that the unit before was
-- in a run.
unfoldable pub replace_runs : (ℕ → Bool) → Bool → Text → Text
replace_runs p was [] = []
replace_runs p was (c ∷ t) =
    let rest = replace_runs p (p c) t in
    if p c then (if was then rest else b'-' ∷ rest) else c ∷ rest

unfoldable pub to_slug_char : ℕ → ℕ
to_slug_char c = if is_slug_char c then c else b'-'

abbrev pub or_self : Text → Option Text → Text
or_self t none = t
or_self t (some rest) = rest

-- `.replace(/^refs\/heads\//, '')`
unfoldable pub strip_heads : Text → Text
strip_heads raw = or_self raw (strip_prefix (codes "refs/heads/") raw)

-- `.replace(/^[._-]+|[._-]+$/g, '')`
unfoldable pub trim_edges : Text → Text
trim_edges t = drop_last_while is_edge (drop_while is_edge t)

-- The chain of `replace` calls behind the first.
unfoldable pub sanitize : Text → Text
sanitize t =
    trim_edges (replace_runs is_dash false (map to_slug_char (replace_runs is_space false t)))

pub record BranchSlug : Type 0 where
  pub suffix : Text
  pub slug : Text
  pub lossy : Bool

abbrev pub truncated : Text → Text
truncated raw = take preview_slug_max (sanitize (strip_heads raw))

-- The last part of `buildBranchSlug`: the slug, the name that it stands for, and six hash digits.
unfoldable pub make_slug : Text → Text → Text → BranchSlug
make_slug slug name hash =
    if slug === name
    then record { suffix = slug; slug = slug; lossy = false }
    else record { suffix = slug ++ b'-' ∷ hash; slug = slug; lossy = true }

-- SHA-256 in hexadecimal is a parameter.
module _ (sha256_hex : Text → Text) where
  abbrev pub hash6 : Text → Text
  hash6 raw = take 6 (sha256_hex raw)

  unfoldable pub build_branch_slug : Text → BranchSlug
  build_branch_slug raw = make_slug (truncated raw) (strip_heads raw) (hash6 raw)

  unfoldable pub preview_asset_name : Text → Text → Text
  preview_asset_name base raw = base ++ codes " @" ++ (build_branch_slug raw).suffix

unfoldable pub channel_asset_name : Text → Text → Text
channel_asset_name base code = b'[' ∷ code ++ codes "] " ++ base
