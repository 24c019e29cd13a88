-- ===== src/Repo/Branch/Marker/Tests.antt =====
-- Markers at concrete branches.
use postman_bootstrap_action.Base.{
  Option, none, some, ◌∷◌, ◌++◌, Text, codes, ◌===◌, Text-discrete, ℕ_discrete, starts_with,
  if◌then◌else◌, ◌≡◌, refl,
}
use postman_bootstrap_action.Base.Json.{Json, Fields, obj, field, str, end, get}
use postman_bootstrap_action.Base.Json.Print.{stringify, quote, escape, escape_from}
use postman_bootstrap_action.Repo.Branch.Marker.{render_asset_marker, find_from, parse_asset_marker}
use postman_bootstrap_action.Repo.Branch.Marker.Scan.{is_plain, is_braceless}
use postman_bootstrap_action.Repo.Branch.Marker.Laws.{
  branch_marker, parse-render_asset_marker, parse-render_asset_marker_brace,
}

abbrev sample : Fields
sample =
    branch_marker (codes "o/r") (codes "feature/x")
      (field (codes "role") (str (codes "preview")) end)

-- `JSON.parse` on the one text that matters here.
abbrev parse_sample : Text → Option Json
parse_sample t = if t === stringify (obj sample) then some (obj sample) else none

parse-render_asset_marker_example :
    parse_asset_marker parse_sample
      (some (codes "Made by CI: " ++ render_asset_marker sample ++ codes " }"))
    ≡ some (obj sample)
unfolding find_from starts_with render_asset_marker stringify quote escape escape_from is_plain
    is_braceless get Text-discrete ℕ_discrete
parse-render_asset_marker_example =
    parse-render_asset_marker parse_sample sample (codes "Made by CI: ") (codes " }") refl refl refl
      refl

parse-render_asset_marker_brace_example :
    parse_asset_marker parse_sample (
      some (
        render_asset_marker (
          branch_marker
            (codes "o/r")
            (codes "a" ++ b'}' ∷ codes "b")
            (field (codes "role") (str (codes "preview")) end))))
    ≡ none
unfolding stringify quote escape escape_from is_plain Text-discrete ℕ_discrete
parse-render_asset_marker_brace_example =
    parse-render_asset_marker_brace parse_sample (codes "o/r") (codes "a") (codes "b")
      (field (codes "role") (str (codes "preview")) end) refl refl refl
