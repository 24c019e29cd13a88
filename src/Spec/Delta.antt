-- ===== src/Spec/Delta.antt =====
-- src/lib/spec/collection-delta.ts: which operations turn one collection into another.
pub mod Index
pub mod Changes
pub mod Identities
pub mod Plan
use postman_bootstrap_action.Base.{
  ℕ, Bool, true, false, not, ◌&&◌, ◌||◌, Option, none, some, List, [], ◌∷◌, ◌++◌, Text, codes,
  ◌===◌, is_empty, trim, is_some, if◌then◌else◌,
}
use postman_bootstrap_action.Base.Json.{
  Json, Items, Fields, null, bool, num, str, arr, obj, nil, cons, end, field, get,
}
use postman_bootstrap_action.Base.Json.Print.{stringify, quote}
use postman_bootstrap_action.Base.Sorting.{sort_by}

pub data EntityType : Type 0 where
  collection http_request : EntityType

pub data OperationKind : Type 0 where
  create patch move delete : OperationKind

pub data PatchField : Type 0 where
  name description method url headers query_params path_variables body : PatchField

pub data FallbackReason : Type 0 where
  ambiguous_semantic_key invalid_collection_shape operation_count_exceeded changed_bytes_exceeded
        unsupported_root_attribute unsupported_workflow_shape unsupported_script_transform
        unsupported_example_transform unsupported_response_transform unsupported_auth_transform
        unsupported_entity_transform :
      FallbackReason

pub record Operation : Type 0 where
  pub kind : OperationKind
  pub key : Text
  pub entity_type : EntityType
  pub source_id : Option Text
  pub parent_key : Option Text
  pub previous_sibling_key : Option Text
  pub next_sibling_key : Option Text
  pub index : ℕ
  pub item : Fields
  pub patch_fields : Option (List PatchField)

pub data DeltaPlan : Type 0 where
  unchanged : DeltaPlan
  fallback : FallbackReason → (changed_bytes : ℕ) → DeltaPlan
  apply : (changed_bytes : ℕ) → List Operation → DeltaPlan

pub record IndexedEntity : Type 0 where
  pub key : Text
  pub source_id : Option Text
  pub entity_type : EntityType
  pub parent_key : Option Text
  pub previous_sibling_key : Option Text
  pub next_sibling_key : Option Text
  pub index : ℕ
  pub depth : ℕ
  pub item : Fields
  pub patch_fields : Option (List PatchField)

abbrev pub is_record : Option Json → Bool
is_record (some (obj fs)) = true
is_record _ = false

abbrev pub is_array : Option Json → Bool
is_array (some (arr xs)) = true
is_array _ = false

-- `delete record[key]`, and `record[key] = value`.
unfoldable pub remove_field : Text → Fields → Fields
remove_field key end = end
remove_field key (field k v fs) =
    let rest = remove_field key fs in if k === key then rest else field k v rest

unfoldable pub put_field : Text → Json → Fields → Fields
put_field key value end = field key value end
put_field key value (field k v fs) =
    let rest = put_field key value fs in if k === key then field k value fs else field k v rest

abbrev pub join_comma : List Text → Text
join_comma [] = []
join_comma (t ∷ []) = t
join_comma (t ∷ (u ∷ ts)) = t ++ (b',' ∷ join_comma (u ∷ ts))

abbrev pub print_pairs : List (Text × Text) → List Text
print_pairs [] = []
print_pairs ((k, t) ∷ ps) = (quote k ++ (b':' ∷ t)) ∷ print_pairs ps

-- An object with its keys in order, from its keys and the texts of their values.
unfoldable pub print_object : List (Text × Text) → Text
print_object pairs =
    (b'{' ∷ join_comma (print_pairs (sort_by (λ (p : Text × Text). p.0) pairs))) ++ (b'}' ∷ [])

unfoldable mutual
  pub stable : Json → Text
  stable (arr xs) = (b'[' ∷ join_comma (stable_items xs)) ++ (b']' ∷ [])
  stable (obj fs) = print_object (stable_fields fs)
  stable null = stringify null
  stable (bool b) = stringify (bool b)
  stable (num is_zero t) = stringify (num is_zero t)
  stable (str t) = stringify (str t)

  pub stable_items : Items → List Text
  stable_items nil = []
  stable_items (cons v vs) = stable v ∷ stable_items vs

  pub stable_fields : Fields → List (Text × Text)
  stable_fields end = []
  stable_fields (field k v fs) = (k, stable v) ∷ stable_fields fs

-- `stable` of a value that may be undefined, in a template.
abbrev pub stable_or_undefined : Option Json → Text
stable_or_undefined none = codes "undefined"
stable_or_undefined (some v) = stable v

unfoldable pub entity_type_of : Fields → Option EntityType
entity_type_of item =
    if is_array (get item (codes "item")) && not (is_record (get item (codes "request")))
    then some collection
    else if is_record (get item (codes "request")) && not (is_array (get item (codes "item")))
    then some http_request
    else none

abbrev pub text_or_empty : Option Json → Text
text_or_empty (some (str t)) = t
text_or_empty _ = []

unfoldable pub preserved_id : Fields → Option Text
preserved_id item =
    if is_empty (trim (text_or_empty (get item (codes "id"))))
    then none
    else some (trim (text_or_empty (get item (codes "id"))))

abbrev pub type_text : EntityType → Text
type_text collection = codes "collection"
type_text http_request = codes "http-request"

-- `String(value)` of a value that is not null, and upper case.
module _ (to_text : Json → Text) (to_upper : Text → Text) where
  unfoldable pub method_of : EntityType → Option Json → Text
  method_of http_request (some (obj request)) = elim (get request (codes "method")) [
    | none ↦ []
    | some null ↦ []
    | some v ↦ to_upper (to_text v)
  ]
  method_of _ _ = []

  unfoldable pub semantic_segment : Fields → EntityType → Text
  semantic_segment item kind =
      type_text kind
      ++ (b':'
          ∷ (method_of kind (get item (codes "request"))
              ++ (b':' ∷ text_or_empty (get item (codes "name")))))
