-- ===== src/Spec/Reconcile/Gateway.antt =====
-- src/lib/postman/spec-file-reconcile.ts: what is read of the answers of the gateway.
use postman_bootstrap_action.Base.{
  Bool, not, ◌&&◌, ◌||◌, Option, none, some, List, [], ◌∷◌, ◌++◌, Text, codes, is_empty, trim,
  if◌then◌else◌,
}
use postman_bootstrap_action.Base.Json.{
  Json, Items, Fields, null, str, arr, obj, nil, cons, get, get_field, as_text,
}
use postman_bootstrap_action.Spec.Reconcile.{CloudSpecFileMeta, is_root_type, is_default_type}

-- `a ?? b` of fields: an absent value is `undefined`.
abbrev pub or_next : Option Json → Option Json → Option Json
or_next none b = b
or_next (some null) b = b
or_next (some v) b = some v

abbrev items_in : Option Json → Items
items_in (some (arr xs)) = xs
items_in _ = nil

-- The list is the data itself, or its `files`.
abbrev list_in : Json → Items
list_in (arr xs) = xs
list_in data' = items_in (get_field data' (codes "files"))

abbrev given_or : Json → Option Json → Json
given_or v none = v
given_or v (some w) = w

-- `root?.data ?? json`: an array has no `data`.
unfoldable pub data_of : Json → Json
data_of json = given_or json (or_next (get_field json (codes "data")) none)

-- `String(value)` of a value that is not a text is the runtime's.
module _ (display : Json → Text) where
  abbrev text_of : Json → Text
  text_of (str t) = t
  text_of v = display v

  -- `String(value ?? '').trim()`
  abbrev pub trimmed : Option Json → Text
  trimmed none = []
  trimmed (some v) = trim (text_of v)

  abbrev parent_of : Option Json → Option Text
  parent_of none = none
  parent_of (some v) = some (trim (text_of v))

  unfoldable pub file_meta : Fields → CloudSpecFileMeta
  file_meta entry = record {
    id = trimmed (or_next (get entry (codes "id")) none);
    path = trimmed (or_next (or_next (get entry (codes "path")) (get entry (codes "name"))) none);
    type = trimmed (or_next (get entry (codes "type")) none);
    parent_id = parent_of (or_next (get entry (codes "parentId")) none);
  }

  -- Only root and default files with an identifier and a path are listed.
  unfoldable pub is_listed : CloudSpecFileMeta → Bool
  is_listed m =
      (is_root_type m.type || is_default_type m.type)
      && not (is_empty m.id)
      && not (is_empty m.path)

  abbrev listed : Json → List CloudSpecFileMeta
  listed (obj entry) = if is_listed (file_meta entry) then file_meta entry ∷ [] else []
  listed _ = []

  unfoldable pub list_entries : Items → List CloudSpecFileMeta
  list_entries nil = []
  list_entries (cons entry entries) = listed entry ++ list_entries entries

  unfoldable pub list_files_from_gateway_response : Json → List CloudSpecFileMeta
  list_files_from_gateway_response json = list_entries (list_in (data_of json))

abbrev record_or : Json → Option Json → Json
record_or v (some (obj fs)) = obj fs
record_or v _ = v

unfoldable pub content_from_gateway_file_read : Json → Option Text
content_from_gateway_file_read json =
    as_text (get_field (record_or json (get_field json (codes "data"))) (codes "content"))
