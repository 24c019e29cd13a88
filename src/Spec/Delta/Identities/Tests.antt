-- ===== src/Spec/Delta/Identities/Tests.antt =====
-- A request and its folder that a converter has given new ids.
use postman_bootstrap_action.Base.{
  Bool, true, false, [], Text, codes, Text-discrete, drop_last_while, drop_while, is_space, trim,
  ◌≡◌, refl,
}
use postman_bootstrap_action.Base.Json.{
  Json, Items, Fields, str, arr, obj, nil, cons, end, field, get,
}
use postman_bootstrap_action.Spec.Delta.{
  put_field, remove_field, entity_type_of, method_of, preserved_id, semantic_segment,
}
use postman_bootstrap_action.Spec.Delta.Identities.{
  normalize_desired_structural_identities, direct_id, copy_direct_structural_id,
  normalize_saved_response_ids, normalize_matched_structural_ids, find_node, has_shared_id,
  match_id, match_ids, match_peers, rewrite_items, rewrite_children, rewrite_value, node_with,
  nodes_of_items, nodes_of_children, nodes_of_value, structural_nodes,
}

abbrev text_of : Json → Text
text_of (str t) = t
text_of _ = []

abbrev upper : Text → Text
upper t = t

abbrev request_with : Text → Json
request_with id = obj (
    field (codes "name") (str (codes "list")) (
      field (codes "request") (obj (field (codes "method") (str (codes "GET")) end))
        (field (codes "id") (str id) end)))

abbrev collection_with : Text → Text → Items → Fields
collection_with folder request others =
    field (codes "item")
      (arr (
        cons
          (obj (
            field (codes "name") (str (codes "pets")) (
              field (codes "item") (arr (cons (request_with request) others))
                (field (codes "id") (str folder) end))))
          nil))
      end

abbrev normalized : Fields → Fields → Fields × Bool
normalized = normalize_desired_structural_identities text_of upper

-- The ids of the snapshot come back.
restored :
    normalized
      (collection_with (codes "f") (codes "r") nil)
      (collection_with (codes "x") (codes "y") nil)
    ≡ (collection_with (codes "f") (codes "r") nil, false)
unfolding normalize_desired_structural_identities Text-discrete get put_field remove_field
    drop_last_while drop_while is_space trim entity_type_of method_of preserved_id semantic_segment
    direct_id copy_direct_structural_id normalize_saved_response_ids
    normalize_matched_structural_ids find_node has_shared_id match_id match_ids match_peers
    rewrite_items rewrite_children rewrite_value node_with nodes_of_items nodes_of_children
    nodes_of_value structural_nodes
restored = refl

-- Two requests of one name and method are ambiguous.
ambiguous :
    (normalized
      (collection_with (codes "f") (codes "r") nil)
      (collection_with (codes "x") (codes "y") (cons (request_with (codes "z")) nil))).1
    ≡ true
unfolding normalize_desired_structural_identities Text-discrete get put_field remove_field
    drop_last_while drop_while is_space trim entity_type_of method_of preserved_id semantic_segment
    direct_id copy_direct_structural_id normalize_saved_response_ids
    normalize_matched_structural_ids find_node has_shared_id match_id match_ids match_peers
    rewrite_items rewrite_children rewrite_value node_with nodes_of_items nodes_of_children
    nodes_of_value structural_nodes
ambiguous = refl
