-- ===== src/Spec/Delta/Plan/Tests.antt =====
-- A plan for two small collections: a request is replaced, and a folder is kept.
use postman_bootstrap_action.Base.{
  ℕ, none, List, [], ◌∷◌, Text, codes, Text-discrete, length, drop_last_while, drop_while, is_space,
  trim, ◌≡◌, refl, map,
}
use postman_bootstrap_action.Base.Json.{
  Json, Items, Fields, str, arr, obj, nil, cons, end, field, get,
}
use postman_bootstrap_action.Base.Finding.{AreDistinct}
use postman_bootstrap_action.Base.Sorting.{lt_text, sort_by, insert_by}
use postman_bootstrap_action.Base.Json.Print.{
  quote, escape_from, escape, stringify, hex_digit, unicode_escape,
}
use postman_bootstrap_action.Spec.Delta.{
  Operation, OperationKind, create, delete, DeltaPlan, apply, print_object, stable_fields, stable,
  put_field, remove_field, entity_type_of, method_of, preserved_id, semantic_segment,
}
use postman_bootstrap_action.Spec.Delta.Changes.{
  has_workflow, changed_unsupported_field, distinct_fields, entity_content_digest, mapped_fields,
  operation, operation_changed_bytes, operation_item, planned_patch_fields, request_patches,
  semantic_request_field_digest, unsupported_create_transform, unsupported_transform,
}
use postman_bootstrap_action.Spec.Delta.Identities.{
  normalize_desired_structural_identities, direct_id, copy_direct_structural_id,
  normalize_saved_response_ids, normalize_matched_structural_ids, find_node, has_shared_id,
  match_id, match_ids, match_peers, rewrite_items, rewrite_children, rewrite_value, node_with,
  nodes_of_items, nodes_of_children, nodes_of_value, structural_nodes,
}
use postman_bootstrap_action.Spec.Delta.Index.{
  enter, enter_as, entity_at, fresh, index_collection, mark_ambiguous, mark_invalid, next_in,
  previous_in, push, visit_children, visit_others, with_siblings,
}
use postman_bootstrap_action.Spec.Delta.Index.Keys.{keys, index_collection-AreDistinct}
use postman_bootstrap_action.Spec.Delta.Plan.{
  plan_collection_delta, operations_limit, bytes_limit, plan_values, plan_normalized, plan_records,
  bounded, classify, classify_one, compare_with, content_changed, create_before, delete_before,
  deletes_of, filter_entries, find_entry, finish, has_moved, insert_sorted, is_explicit,
  move_before, operations_of, ordered_moves, patch_before, patch_of, patched, plan_entries,
  plan_indexed, sort_before, total_bytes,
}
use postman_bootstrap_action.Spec.Delta.Plan.Laws.{
  Applies, IsWithin, entries_of, plan_collection_delta-IsWithin,
}
use postman_bootstrap_action.Spec.Delta.Plan.Carried.{Carries, plan_collection_delta-Carries}

abbrev text_of : Json → Text
text_of (str t) = t
text_of _ = []

abbrev print : Fields → Text
print fs = print_object (stable_fields fs)

abbrev one_digit : ℕ → Text
one_digit n = codes "1"

abbrev upper : Text → Text
upper t = t

abbrev request_named : Text → Json
request_named t = obj (
    field (codes "name") (str t)
      (field (codes "request") (obj (field (codes "method") (str (codes "GET")) end)) end))

abbrev folder : Json
folder = obj (
    field (codes "name") (str (codes "pets"))
      (field (codes "item") (arr (cons (request_named (codes "list")) nil)) end))

abbrev with_items : Items → Fields
with_items items = field (codes "name") (str (codes "c")) (field (codes "item") (arr items) end)

abbrev before : Fields
before = with_items (cons (request_named (codes "old")) (cons folder nil))

abbrev after : Fields
after = with_items (cons folder (cons (request_named (codes "new")) nil))

abbrev plan : DeltaPlan
plan =
    plan_collection_delta lt_text print (λ t. length t) one_digit text_of upper (obj before)
      (obj after) none none

abbrev kinds_of : DeltaPlan → List (OperationKind × Text)
kinds_of (apply bytes operations) = map (λ (o : Operation). (o.kind, o.key)) operations
kinds_of _ = []

plan_collection_delta-IsWithin_example :
    Applies lt_text print
      (λ t. length t)
      one_digit
      (IsWithin lt_text print
        (λ t. length t)
        one_digit
        (operations_limit lt_text print (λ t. length t) one_digit text_of upper none)
        (bytes_limit lt_text print (λ t. length t) one_digit text_of upper none))
      plan
plan_collection_delta-IsWithin_example =
    plan_collection_delta-IsWithin lt_text print (λ t. length t) one_digit text_of upper
      (obj before) (obj after) none none

plan_collection_delta-Carries_example :
    Applies lt_text print
      (λ t. length t)
      one_digit
      (λ bytes. Carries (entries_of lt_text print (λ t. length t) one_digit text_of upper before) (
        entries_of lt_text print
          (λ t. length t)
          one_digit
          text_of
          upper
          ((normalize_desired_structural_identities text_of upper before after).0)))
      plan
plan_collection_delta-Carries_example =
    plan_collection_delta-Carries lt_text print (λ t. length t) one_digit text_of upper before after
      none none

index_collection-AreDistinct_example :
    AreDistinct (keys (index_collection text_of upper before).entries)
index_collection-AreDistinct_example = index_collection-AreDistinct text_of upper before

planned : kinds_of plan ≡ (
    (delete, codes "semantic:/http-request:GET:old")
    ∷ (create, codes "semantic:/http-request:GET:new")
    ∷ [])
unfolding normalize_desired_structural_identities direct_id copy_direct_structural_id
    normalize_saved_response_ids normalize_matched_structural_ids find_node has_shared_id match_id
    match_ids match_peers rewrite_items rewrite_children rewrite_value node_with nodes_of_items
    nodes_of_children nodes_of_value structural_nodes plan_collection_delta plan_values
    plan_normalized plan_records Text-discrete print_object sort_by stable_fields insert_by lt_text
    quote escape_from escape has_workflow get put_field stringify hex_digit unicode_escape
    drop_last_while drop_while is_space trim changed_unsupported_field distinct_fields
    entity_content_digest mapped_fields operation operation_changed_bytes operation_item
    planned_patch_fields request_patches semantic_request_field_digest unsupported_create_transform
    unsupported_transform enter enter_as entity_at fresh index_collection mark_ambiguous
    mark_invalid next_in previous_in push visit_children visit_others with_siblings bounded classify
    classify_one compare_with content_changed create_before delete_before deletes_of filter_entries
    find_entry finish has_moved insert_sorted is_explicit move_before operations_of ordered_moves
    patch_before patch_of patched plan_entries plan_indexed sort_before total_bytes entity_type_of
    method_of preserved_id remove_field semantic_segment stable
planned = refl
