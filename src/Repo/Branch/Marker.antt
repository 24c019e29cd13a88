-- ===== src/Repo/Branch/Marker.antt =====
-- src/lib/repo/branch-decision.ts: the ownership marker in an asset's description.
pub mod Scan
pub mod Laws
mod Tests
use postman_bootstrap_action.Base.{
  ℕ, suc, ◌-◌, ◌+◌, Bool, true, false, ◌&&◌, Option, none, some, [], ◌∷◌, ◌++◌, Text, codes, ◌==◌,
  is_empty, starts_with, if◌then◌else◌,
}
use postman_bootstrap_action.Base.Json.{Json, Fields, obj, get_field, field_is_truthy}
use postman_bootstrap_action.Base.Json.Print.{stringify}
use mathlib.Core.Option

abbrev pub marker_key : Text
marker_key = codes "x-pm-onboarding:"

-- A marker is the JSON object of its fields.
unfoldable pub render_asset_marker : Fields → Text
render_asset_marker marker = marker_key ++ b' ' ∷ stringify (obj marker)

-- The text from the first occurrence of `key` on: `t.slice(t.indexOf(key))`.
unfoldable pub find_from : Text → Text → Option Text
find_from key [] = if is_empty key then some [] else none
find_from key (c ∷ t) =
    let rest = find_from key t in if starts_with key (c ∷ t) then some (c ∷ t) else rest

-- The loop over the braces: the text up to the brace at which the depth returns to 0.
unfoldable pub balanced : ℕ → Text → Option Text
balanced depth [] = none
balanced depth (c ∷ t) = elim (c == b'{') [
  | true ↦ Option.map (λ (r : Text). c ∷ r) (balanced (depth + 1) t)
  | false ↦ elim (c == b'}') [
    | true ↦ elim (depth - 1 == 0) [
      | true ↦ some (c ∷ [])
      | false ↦ Option.map (λ (r : Text). c ∷ r) (balanced (depth - 1) t)
    ]
    | false ↦ Option.map (λ (r : Text). c ∷ r) (balanced depth t)
  ]
]

infixl 5 ◌>>=◌
abbrev ◌>>=◌ {ℓ κ} : {A : Type ℓ} {B : Type κ} → Option A → (A → Option B) → Option B
none >>= f = none
some a >>= f = f a

-- `parsed && typeof parsed === 'object' && parsed.repo && parsed.role`
abbrev pub owned : Json → Option Json
owned v =
    if field_is_truthy (get_field v (codes "repo")) && field_is_truthy (get_field v (codes "role"))
    then some v
    else none

-- `JSON.parse` is a parameter, `none` where it throws.
unfoldable pub parse_asset_marker : (Text → Option Json) → Option Text → Option Json
parse_asset_marker json_parse none = none
parse_asset_marker json_parse (some description) = do
  tail ← find_from marker_key description
  object ← find_from (codes "{") tail
  body ← balanced 0 object
  parsed ← json_parse body
  owned parsed
