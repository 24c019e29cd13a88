-- ===== src/Repo/Branch/Slug/Tests.antt =====
-- Branch slugs at concrete names.
use postman_bootstrap_action.Base.{
  true, false, Text, codes, Text-discrete, ℕ_discrete, is_space, drop_while, drop_last_while,
  strip_prefix, length, all, ◌≤◌, ◌≡◌, ◌≢◌, refl, ◌↔◌, arith,
}
use postman_bootstrap_action.Repo.Branch.Slug.{
  is_slug_char, is_dash, is_edge, to_slug_char, replace_runs, strip_heads, trim_edges, sanitize,
  hash6, make_slug, build_branch_slug, preview_asset_name,
}
use postman_bootstrap_action.Repo.Branch.Slug.Runs.{singles}
use postman_bootstrap_action.Repo.Branch.Slug.Edges.{first_ok, last_ok}
use postman_bootstrap_action.Repo.Branch.Slug.Laws.{
  IsSanitized, build_branch_slug_lossless, build_branch_slug_bounds,
  build_branch_slug_lossy_injective, build_branch_slug_collides,
}

abbrev digits : Text → Text
digits t = codes "0123456789"

preview_name :
    preview_asset_name digits (codes "API") (codes "refs/heads/feature/x  y.")
    ≡ codes "API @feature-x-y-012345"
unfolding preview_asset_name build_branch_slug make_slug strip_heads sanitize trim_edges
    replace_runs to_slug_char is_slug_char is_dash is_edge is_space drop_while drop_last_while
    strip_prefix Text-discrete ℕ_discrete
preview_name = refl

build_branch_slug_lossless_example :
    ((build_branch_slug digits (codes "fix-1")).lossy ≡ false)
    ↔ (IsSanitized (strip_heads (codes "fix-1")) × (length (strip_heads (codes "fix-1")) ≤ 30))
build_branch_slug_lossless_example = build_branch_slug_lossless digits (codes "fix-1")

build_branch_slug_bounds_example :
    let s = build_branch_slug digits (codes "a/b") in
    (length s.slug ≤ 30)
    × (all is_slug_char s.slug ≡ true)
    × (length s.suffix ≤ 37)
    × (all is_slug_char s.suffix ≡ true)
unfolding is_slug_char
build_branch_slug_bounds_example = build_branch_slug_bounds digits (codes "a/b") refl

build_branch_slug_lossy_injective_example :
    ((build_branch_slug digits (codes "a/b")).slug ≡ (build_branch_slug digits (codes "a b")).slug)
    × (hash6 digits (codes "a/b") ≡ hash6 digits (codes "a b"))
unfolding build_branch_slug make_slug strip_heads sanitize trim_edges replace_runs to_slug_char
    is_slug_char is_dash is_edge is_space drop_while drop_last_while strip_prefix Text-discrete
    ℕ_discrete
build_branch_slug_lossy_injective_example =
    build_branch_slug_lossy_injective digits (codes "a/b") (codes "a b") (omega arith) (omega arith)
      refl refl refl

build_branch_slug_collides_example :
    (strip_heads (codes "a-b-012345") ≢ strip_heads (codes "a/b"))
    × (((build_branch_slug digits (codes "a/b")).suffix ≡ codes "a-b-012345")
        × (((build_branch_slug digits (codes "a-b-012345")).suffix ≡ codes "a-b-012345")
            × ((build_branch_slug digits (codes "a-b-012345")).lossy ≡ false)))
unfolding build_branch_slug make_slug strip_heads sanitize trim_edges replace_runs to_slug_char
    is_slug_char is_dash is_edge is_space drop_while drop_last_while strip_prefix singles first_ok
    last_ok Text-discrete ℕ_discrete
build_branch_slug_collides_example =
    build_branch_slug_collides digits (codes "a/b") refl refl
      (record { chars = refl; singled = refl; first = refl; last = refl }) (omega arith)
