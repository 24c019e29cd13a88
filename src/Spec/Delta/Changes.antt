-- ===== src/Spec/Delta/Changes.antt =====
-- src/lib/spec/collection-delta.ts: how two versions of an entity differ, and what an operation
-- carries.
use postman_bootstrap_action.Base.{
  ℕ, Bool, not, ◌&&◌, ◌||◌, Option, none, some, List, [], ◌∷◌, ◌++◌, Text, codes, ◌===◌, is_some,
  any, if◌then◌else◌,
}
use postman_bootstrap_action.Base.Json.{Json, Fields, str, arr, obj, nil, cons, end, field, get}
use postman_bootstrap_action.Base.Retry.{Tried, gave, threw, ◌>>=◌}
use postman_bootstrap_action.Spec.Delta.{
  EntityType, collection, OperationKind, create, patch, move, delete, PatchField, name, description,
  method, url, headers, query_params, path_variables, body, FallbackReason,
  unsupported_workflow_shape, unsupported_script_transform, unsupported_example_transform,
  unsupported_response_transform, unsupported_auth_transform, unsupported_entity_transform,
  Operation, IndexedEntity, put_field, print_object, stable, stable_fields, stable_or_undefined,
  type_text,
}

abbrev field_text : PatchField → Text
field_text name = codes "name"
field_text description = codes "description"
field_text method = codes "method"
field_text url = codes "url"
field_text headers = codes "headers"
field_text query_params = codes "queryParams"
field_text path_variables = codes "pathVariables"
field_text body = codes "body"

abbrev keys_of : Fields → List Text
keys_of end = []
keys_of (field k v fs) = k ∷ keys_of fs

abbrev is_in : List Text → Text → Bool
is_in ts t = any (λ s. s === t) ts

-- `key in item`
abbrev pub has_field : Text → Fields → Bool
has_field key item = is_some (get item key)

unfoldable pub has_workflow : Fields → Bool
has_workflow item = has_field (codes "workflow") item || has_field (codes "workflows") item

abbrev pub with_field : Text → Option Json → Fields → Fields
with_field key none fs = fs
with_field key (some v) fs = put_field key v fs

abbrev pub named_info : Text → Fields → Fields
named_info t fs = field (codes "info") (obj (field (codes "name") (str t) end)) fs

abbrev pub one_item : Fields → Fields
one_item item = field (codes "item") (arr (cons (obj item) nil)) end

abbrev allowed_fields : List Text
allowed_fields =
    codes "id"
    ∷ codes "name"
    ∷ codes "description"
    ∷ codes "request"
    ∷ codes "item"
    ∷ codes "event"
    ∷ codes "response"
    ∷ codes "auth"
    ∷ codes "example"
    ∷ []

abbrev allowed_on_create : List Text
allowed_on_create = allowed_fields ++ (codes "protocolProfileBehavior" ∷ [])

abbrev request_fields : List Text
request_fields =
    codes "id"
    ∷ codes "method"
    ∷ codes "url"
    ∷ codes "header"
    ∷ codes "body"
    ∷ codes "auth"
    ∷ codes "description"
    ∷ []

unfoldable pub unsupported_create_transform : Fields → Option FallbackReason
unsupported_create_transform item =
    if has_workflow item
    then some unsupported_workflow_shape
    else if any (λ key. not (is_in allowed_on_create key)) (keys_of item)
    then some unsupported_entity_transform
    else none

-- `[...new Set(fields)]`
unfoldable pub distinct_fields : List Text → List PatchField → List PatchField
distinct_fields seen [] = []
distinct_fields seen (f ∷ fs) =
    let rest = distinct_fields (field_text f ∷ seen) fs in
    let others = distinct_fields seen fs in if is_in seen (field_text f) then others else f ∷ rest

-- The source of a patched field in a request, and the fields that it stands for.
abbrev mappings : List (Text × List PatchField)
mappings =
    (codes "method", method ∷ [])
    ∷ (codes "url", url ∷ query_params ∷ path_variables ∷ [])
    ∷ (codes "header", headers ∷ [])
    ∷ (codes "body", body ∷ [])
    ∷ []

-- The digest of a payload is computePayloadDigest of local-openapi-collection-generation.ts.
module _ (digest : Fields → Text) where
  abbrev field_digest : Text → Fields → Text
  field_digest key source = digest (
      named_info (codes "Delta field comparison") (
        one_item (
          with_field key (get source key) (
            field (codes "name") (str (codes "Delta entity"))
              (field (codes "item") (arr nil) end)))))

  unfoldable pub changed_unsupported_field : Fields → Fields → Text → Bool
  changed_unsupported_field snapshot desired key =
      not (field_digest key snapshot === field_digest key desired)

  unfoldable pub unsupported_transform : Fields → Fields → Option FallbackReason
  unsupported_transform snapshot desired =
      if has_workflow snapshot || has_workflow desired
      then some unsupported_workflow_shape
      else if changed_unsupported_field snapshot desired (codes "event")
      then some unsupported_script_transform
      else if changed_unsupported_field snapshot desired (codes "response")
      then some unsupported_response_transform
      else if changed_unsupported_field snapshot desired (codes "auth")
      then some unsupported_auth_transform
      else if changed_unsupported_field snapshot desired (codes "example")
      then some unsupported_example_transform
      else if any
          (λ key. not (is_in allowed_fields key) && changed_unsupported_field snapshot desired key)
          (keys_of snapshot ++ keys_of desired)
      then some unsupported_entity_transform
      else none

  unfoldable pub entity_content_digest : Fields → Text
  entity_content_digest item = digest (named_info (codes "Delta entity comparison") (one_item item))

  unfoldable pub semantic_request_field_digest : Fields → Text → Text
  semantic_request_field_digest request key = entity_content_digest (
      field (codes "name") (str (codes "Request field")) (
        field (codes "request")
          (obj (
            with_field key (get request key) (
              field (codes "method") (str (codes "GET"))
                (field (codes "url") (str (codes "https://example.invalid")) end))))
          end))

  abbrev same_request_field : Fields → Fields → Text → Bool
  same_request_field before after key =
      semantic_request_field_digest before key === semantic_request_field_digest after key

  unfoldable pub mapped_fields :
      Fields → Fields → List (Text × List PatchField) → Tried FallbackReason (List PatchField)
  mapped_fields before after [] = gave []
  mapped_fields before after ((source, target) ∷ rest) =
      let later = mapped_fields before after rest in
      if same_request_field before after source
      then later
      else if not (has_field source after)
      then threw unsupported_entity_transform
      else later >>= (λ fields. gave (target ++ fields))

  abbrev described : Fields → Fields → List PatchField
  described before after =
      if same_request_field before after (codes "description") then [] else description ∷ []

  unfoldable pub request_patches : Fields → Fields → Tried FallbackReason (List PatchField)
  request_patches before after =
      if not (same_request_field before after (codes "auth"))
      then threw unsupported_auth_transform
      else mapped_fields before after mappings >>= (λ fields.
        if any (λ key. not (is_in request_fields key) && not (same_request_field before after key))
          (keys_of before ++ keys_of after)
        then threw unsupported_entity_transform
        else gave (fields ++ described before after))

  abbrev item_patches : Fields → Fields → List PatchField
  item_patches snapshot desired =
      (if stable_or_undefined (get snapshot (codes "name"))
          === stable_or_undefined (get desired (codes "name"))
        then []
        else name ∷ [])
      ++ (if changed_unsupported_field snapshot desired (codes "description")
          then description ∷ []
          else [])

  abbrev patches_of_requests :
      List PatchField → Option Json → Option Json → Tried FallbackReason (List PatchField)
  patches_of_requests fields (some (obj before)) (some (obj after)) =
      request_patches before after >>= (λ more. gave (distinct_fields [] (fields ++ more)))
  patches_of_requests fields (some (obj before)) _ = threw unsupported_entity_transform
  patches_of_requests fields _ (some (obj after)) = threw unsupported_entity_transform
  patches_of_requests fields _ _ = gave fields

  unfoldable pub planned_patch_fields : Fields → Fields → Tried FallbackReason (List PatchField)
  planned_patch_fields snapshot desired =
      patches_of_requests (item_patches snapshot desired) (get snapshot (codes "request"))
        (get desired (codes "request"))

-- The entity as the operation carries it: a folder is created without its items.
unfoldable pub operation_item : OperationKind → EntityType → Fields → Fields
operation_item create collection item = put_field (codes "item") (arr nil) item
operation_item _ _ item = item

unfoldable pub operation : OperationKind → IndexedEntity → Operation
operation kind e = record {
  kind = kind;
  key = e.key;
  entity_type = e.entity_type;
  source_id = e.source_id;
  parent_key = e.parent_key;
  previous_sibling_key = e.previous_sibling_key;
  next_sibling_key = e.next_sibling_key;
  index = e.index;
  item = operation_item kind e.entity_type e.item;
  patch_fields = e.patch_fields;
}

-- The length in UTF-8, and decimal numbers.
module _ (byte_length : Text → ℕ) (number : ℕ → Text) where
  abbrev quoted : Option Text → Text
  quoted none = codes "undefined"
  quoted (some t) = stable (str t)

  abbrev given : Text → Option Text → List (Text × Text)
  given key none = []
  given key (some t) = (key, stable (str t)) ∷ []

  abbrev patch_projection : Operation → List (Text × Text)
  patch_projection o =
      (codes "name", stable_or_undefined (get o.item (codes "name")))
      ∷ (codes "description", stable_or_undefined (get o.item (codes "description")))
      ∷ (if type_text o.entity_type === codes "collection"
          then []
          else (codes "request", stable_or_undefined (get o.item (codes "request"))) ∷ [])

  abbrev operation_text : OperationKind → Operation → Text
  operation_text patch o = print_object (
      (codes "kind", stable (str (codes "patch")))
      ∷ (codes "item", print_object (patch_projection o))
      ∷ [])
  operation_text move o = print_object (
      (codes "kind", stable (str (codes "move")))
      ∷ (codes "parentKey", quoted o.parent_key)
      ∷ (codes "previousSiblingKey", quoted o.previous_sibling_key)
      ∷ (codes "nextSiblingKey", quoted o.next_sibling_key)
      ∷ [])
  operation_text delete o =
      print_object
        ((codes "kind", stable (str (codes "delete"))) ∷ (codes "key", stable (str o.key)) ∷ [])
  operation_text create o = print_object (
      (codes "kind", stable (str (codes "create")))
      ∷ (codes "key", stable (str o.key))
      ∷ (codes "entityType", stable (str (type_text o.entity_type)))
      ∷ (codes "index", number o.index)
      ∷ (codes "item", print_object (stable_fields o.item))
      ∷ (given (codes "sourceId") o.source_id
          ++ (given (codes "parentKey") o.parent_key
              ++ (given (codes "previousSiblingKey") o.previous_sibling_key
                  ++ given (codes "nextSiblingKey") o.next_sibling_key))))

  unfoldable pub operation_changed_bytes : Operation → ℕ
  operation_changed_bytes o = byte_length (operation_text o.kind o)
