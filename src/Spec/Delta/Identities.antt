-- ===== src/Spec/Delta/Identities.antt =====
-- src/lib/spec/collection-delta.ts, normalizeDesiredStructuralIdentities: the desired collection with
-- the structural ids of the entities of the snapshot that it keeps. A node is known by its place in
-- the order of the visit.
mod Tests
use postman_bootstrap_action.Base.{
  ℕ, zero, suc, ◌+◌, ◌==◌, Bool, true, false, not, ◌&&◌, ◌||◌, Option, none, some, List, [], ◌∷◌,
  ◌++◌, Text, codes, ◌===◌, is_empty, trim, is_some, any, length, if◌then◌else◌,
}
use postman_bootstrap_action.Base.Json.{
  Json, Items, Fields, null, bool, num, str, arr, obj, nil, cons, end, field, get,
}
use postman_bootstrap_action.Spec.Delta.{
  EntityType, collection, http_request, is_array, remove_field, put_field, stable, entity_type_of,
  preserved_id, semantic_segment, text_or_empty,
}

pub record StructuralNode : Type 0 where
  pub item : Fields
  pub id : Option Text
  pub semantic_key : Text

pub record Nodes : Type 0 where
  pub nodes : List StructuralNode
  pub invalid : Bool

abbrev no_nodes : Bool → Nodes
no_nodes invalid = record { nodes = []; invalid = invalid }

abbrev and_then : Nodes → Nodes → Nodes
and_then a b = record { nodes = a.nodes ++ b.nodes; invalid = a.invalid || b.invalid }

-- The id of a record as it is written, if it is not blank.
unfoldable pub direct_id : Fields → Option Json
direct_id item =
    if is_empty (trim (text_or_empty (get item (codes "id")))) then none else get item (codes "id")

unfoldable pub copy_direct_structural_id : Fields → Fields → Fields
copy_direct_structural_id snapshot desired = elim (direct_id snapshot) [
  | none ↦ remove_field (codes "id") desired
  | some id ↦ put_field (codes "id") id desired
]

abbrev without_id : Fields → Text
without_id response = stable (obj (remove_field (codes "id") response))

abbrev copy_response : Json → Json → Json
copy_response (obj previous) (obj next) =
    if without_id previous === without_id next
    then obj (copy_direct_structural_id previous next)
    else obj next
copy_response previous next = next

abbrev count : Items → ℕ
count nil = 0
count (cons v items) = suc (count items)

abbrev copy_responses : Items → Items → Items
copy_responses (cons p ps) (cons n ns) = cons (copy_response p n) (copy_responses ps ns)
copy_responses _ ns = ns

abbrev response_ids : Option Json → Option Json → Option Json
response_ids (some (arr before)) (some (arr after)) =
    if count before == count after then some (arr (copy_responses before after)) else none
response_ids _ _ = none

abbrev put_given : Text → Option Json → Fields → Fields
put_given key none fields = fields
put_given key (some v) fields = put_field key v fields

-- The ids of saved responses are copied where nothing else in a response has changed.
unfoldable pub normalize_saved_response_ids : Fields → Fields → Fields
normalize_saved_response_ids snapshot desired =
    put_given (codes "response")
      (response_ids (get snapshot (codes "response")) (get desired (codes "response"))) desired

abbrev request_id : Option Json → Option Json → Option Json
request_id (some (obj before)) (some (obj after)) =
    some (obj (copy_direct_structural_id before after))
request_id _ _ = none

unfoldable pub normalize_matched_structural_ids : Fields → Fields → Fields
normalize_matched_structural_ids snapshot desired = normalize_saved_response_ids snapshot (
    put_given (codes "request")
      (request_id (get snapshot (codes "request")) (get desired (codes "request")))
      (copy_direct_structural_id snapshot desired))

abbrev same_id : Text → StructuralNode → Bool
same_id id node = elim node.id [ none ↦ false | some other ↦ other === id ]

abbrev count_nodes : (StructuralNode → Bool) → List StructuralNode → ℕ
count_nodes test [] = 0
count_nodes test (n ∷ ns) = let rest = count_nodes test ns in if test n then suc rest else rest

-- A node of the snapshot that passes the test, with its place.
unfoldable pub find_node :
    (StructuralNode → Bool) → ℕ → List StructuralNode → Option (ℕ × StructuralNode)
find_node test place [] = none
find_node test place (n ∷ ns) =
    let rest = find_node test (suc place) ns in if test n then some (place, n) else rest

-- Two nodes of the snapshot have one id.
unfoldable pub has_shared_id : List StructuralNode → Bool
has_shared_id [] = false
has_shared_id (n ∷ ns) =
    (elim n.id [ none ↦ false | some id ↦ any (same_id id) ns ]) || has_shared_id ns

abbrev Match : Type 0
Match = Option (ℕ × StructuralNode)

abbrev is_used : ℕ → List Match → Bool
is_used place [] = false
is_used place (none ∷ ms) = is_used place ms
is_used place (some m ∷ ms) = (m.0 == place) || is_used place ms

abbrev by_same_key : Text → StructuralNode → Bool
by_same_key key node = node.semantic_key === key

module _ (before after : List StructuralNode) where
  -- An id that one node of the desired collection has counts, if the snapshot has it.
  unfoldable pub match_id : Option Text → Match
  match_id none = none
  match_id (some id) =
      if count_nodes (same_id id) after == 1 then find_node (same_id id) 0 before else none

  unfoldable pub match_ids : List StructuralNode → List Match
  match_ids [] = []
  match_ids (n ∷ ns) = match_id n.id ∷ match_ids ns

  -- The peer by kind, method, name and path, where it is the only one on either side.
  abbrev semantic_ambiguous : Text → Bool
  semantic_ambiguous key =
      not (count_nodes (by_same_key key) before == 0)
      && not (count_nodes (by_same_key key) before == 1 && count_nodes (by_same_key key) after == 1)

  abbrev free_peer : Text → List Match → Match
  free_peer key used = elim (find_node (by_same_key key) 0 before) [
    | none ↦ none
    | some m ↦ if is_used (m.0) used then none else some m
  ]

  -- The nodes without a match, in order, with all the matches so far; and whether one is ambiguous.
  unfoldable pub match_peers : List StructuralNode → List Match → List Match → List Match × Bool
  match_peers (n ∷ ns) (some m ∷ ms) used =
      let rest = match_peers ns ms used in (some m ∷ (rest.0), rest.1)
  match_peers (n ∷ ns) (none ∷ ms) used =
      let peer =
        if semantic_ambiguous n.semantic_key then none else free_peer n.semantic_key used in
      let rest = match_peers ns ms (peer ∷ used) in
      (peer ∷ (rest.0), semantic_ambiguous n.semantic_key || (rest.1))
  match_peers _ ms used = (ms, false)

abbrev next_match : List Match → Match
next_match [] = none
next_match (m ∷ ms) = m

abbrev later_matches : List Match → List Match
later_matches [] = []
later_matches (m ∷ ms) = ms

abbrev apply_match : Match → Fields → Fields
apply_match none item = item
apply_match (some m) item = normalize_matched_structural_ids (m.1.item) item

unfoldable mutual
  -- The items with the ids of their matches, and the matches that are left.
  pub rewrite_items : Items → List Match → Items × List Match
  rewrite_items nil ms = (nil, ms)
  rewrite_items (cons (obj item) items) ms =
      let inner = rewrite_children item (later_matches ms) in
      let rest = rewrite_items items (inner.1) in
      (cons (obj (apply_match (next_match ms) (inner.0))) (rest.0), rest.1)
  rewrite_items (cons v items) ms = let rest = rewrite_items items ms in (cons v (rest.0), rest.1)

  pub rewrite_children : Fields → List Match → Fields × List Match
  rewrite_children end ms = (end, ms)
  rewrite_children (field k v fields) ms = elim (k === codes "item") [
    | true ↦ let inner = rewrite_value v ms in (field k (inner.0) fields, inner.1)
    | false ↦ let rest = rewrite_children fields ms in (field k v (rest.0), rest.1)
  ]

  pub rewrite_value : Json → List Match → Json × List Match
  rewrite_value (arr items) ms = let rest = rewrite_items items ms in (arr (rest.0), rest.1)
  rewrite_value v ms = (v, ms)

module _ (to_text : Json → Text) (to_upper : Text → Text) where
  abbrev node_at : Text → Fields → EntityType → StructuralNode
  node_at path item kind = record {
    item = item;
    id = preserved_id item;
    semantic_key = path ++ (b'/' ∷ semantic_segment to_text to_upper item kind);
  }

  -- A node and the nodes of its children, which a folder alone has.
  unfoldable pub node_with : (Text → Nodes) → Text → Fields → Nodes
  node_with children path item = elim (entity_type_of item) [
    | none ↦ no_nodes true
    | some http_request ↦ record { nodes = node_at path item http_request ∷ []; invalid = false }
    | some collection ↦
        let node = node_at path item collection in
        and_then (record { nodes = node ∷ []; invalid = false }) (children node.semantic_key)
  ]

  unfoldable mutual
    pub nodes_of_items : Items → Text → Nodes
    nodes_of_items nil path = no_nodes false
    nodes_of_items (cons (obj item) items) path =
        and_then (node_with (λ inner. nodes_of_children item inner) path item)
          (nodes_of_items items path)
    nodes_of_items (cons v items) path = and_then (no_nodes true) (nodes_of_items items path)

    pub nodes_of_children : Fields → Text → Nodes
    nodes_of_children end path = no_nodes true
    nodes_of_children (field k v fields) path = elim (k === codes "item") [
      | true ↦ nodes_of_value v path
      | false ↦ nodes_of_children fields path
    ]

    pub nodes_of_value : Json → Text → Nodes
    nodes_of_value (arr items) path = nodes_of_items items path
    nodes_of_value v path = no_nodes true

  unfoldable pub structural_nodes : Fields → Nodes
  structural_nodes item = nodes_of_children item []

  abbrev rewritten : Fields → List Match × Bool → Fields × Bool
  rewritten desired (matches, ambiguous) =
      if ambiguous then (desired, true) else ((rewrite_children desired matches).0, false)

  unfoldable pub normalize_desired_structural_identities : Fields → Fields → Fields × Bool
  normalize_desired_structural_identities snapshot desired =
      let before = structural_nodes snapshot in
      let after = structural_nodes desired in
      if before.invalid || after.invalid
      then (desired, false)
      else if has_shared_id before.nodes
      then (desired, true)
      else rewritten desired (
          match_peers before.nodes after.nodes after.nodes
            (match_ids before.nodes after.nodes after.nodes)
            (match_ids before.nodes after.nodes after.nodes))
