-- ===== src/Secrets.antt =====
-- src/lib/secrets.ts: secrets are replaced in what is logged.
pub mod Laws
pub mod Trim
pub mod Masker
pub mod Headers
mod Tests
use postman_bootstrap_action.Base.{
  ℕ, Bool, true, false, not, ◌&&◌, ◌||◌, List, [], ◌∷◌, ◌++◌, Text, codes, ◌===◌, is_empty, trim,
  replace_all, ltb, any, length, if◌then◌else◌,
}
use postman_bootstrap_action.Base.Json.{Json, null, bool, num, str, arr, obj, Items, nil, cons}

abbrev pub redacted : Text
redacted = codes "[REDACTED]"

-- The values of `unknown` type, with any iterable in the place of an array.
unfoldable mutual
  pub secret_values : Json → List Text
  secret_values null = []
  secret_values (bool true) = codes "true" ∷ []
  secret_values (bool false) = codes "false" ∷ []
  secret_values (num is_zero t) = t ∷ []
  secret_values (str t) = if is_empty (trim t) then [] else trim t ∷ []
  secret_values (arr items) = item_values items
  secret_values (obj fields) = []

  pub item_values : Items → List Text
  item_values nil = []
  item_values (cons v items) = secret_values v ++ item_values items

unfoldable pub has : Text → List Text → Bool
has t ts = any (λ s. s === t) ts

-- `[...new Set(values)]`, where `seen` are the values before.
unfoldable pub distinct : List Text → List Text → List Text
distinct seen [] = []
distinct seen (t ∷ ts) = elim (has t seen) [
  | true ↦ distinct seen ts
  | false ↦ t ∷ distinct (t ∷ seen) ts
]

-- The longest first; the sort is stable.
unfoldable pub insert_long : Text → List Text → List Text
insert_long t [] = t ∷ []
insert_long t (s ∷ ss) =
    let rest = insert_long t ss in if ltb (length t) (length s) then s ∷ rest else t ∷ s ∷ ss

unfoldable pub sort_long : List Text → List Text
sort_long [] = []
sort_long (t ∷ ts) = insert_long t (sort_long ts)

unfoldable pub normalize_secret_values : Json → List Text
normalize_secret_values values = sort_long (distinct [] (secret_values values))

unfoldable pub redact_each : Text → List Text → Text → Text
redact_each replacement [] t = t
redact_each replacement (s ∷ ss) t =
    redact_each replacement ss (if is_empty s then t else replace_all s replacement t)

unfoldable pub redact_secrets : Text → Json → Text → Text
redact_secrets input secrets replacement =
    if is_empty input || is_empty (normalize_secret_values secrets)
    then input
    else redact_each replacement (normalize_secret_values secrets) input

abbrev pub texts : List Text → Items
texts [] = nil
texts (t ∷ ts) = cons (str t) (texts ts)

-- A masker that can grow: its state is the list of its secrets.
unfoldable pub create_masker : Json → List Text
create_masker initial = normalize_secret_values initial

unfoldable pub mask : Text → List Text → Text → Text
mask replacement secrets input = redact_secrets input (arr (texts secrets)) replacement

unfoldable pub add : List Text → Text → List Text
add secrets value =
    if not (is_empty (trim value)) && not (has (trim value) secrets)
    then secrets ++ (trim value ∷ [])
    else secrets

unfoldable pub add_all : List Text → List Text → List Text
add_all secrets [] = secrets
add_all secrets (v ∷ vs) = add_all (add secrets v) vs
