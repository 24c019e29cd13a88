-- ===== src/Spec/Delta/Index.antt =====
-- src/lib/spec/collection-delta.ts, indexCollection: the folders and requests of a collection, with
-- their keys, places and siblings.
pub mod Keys
use postman_bootstrap_action.Base.{
  ℕ, zero, suc, ◌+◌, Bool, true, false, not, ◌&&◌, ◌||◌, Option, none, some, List, [], ◌∷◌, ◌++◌,
  Text, codes, ◌===◌, ltb, any, map, if◌then◌else◌,
}
use postman_bootstrap_action.Base.Json.{
  Json, Items, Fields, null, bool, num, str, arr, obj, nil, cons, end, field, get,
}
use postman_bootstrap_action.Spec.Delta.{
  EntityType, collection, http_request, IndexedEntity, is_array, entity_type_of, preserved_id,
  type_text, semantic_segment,
}

pub record Visited : Type 0 where
  pub entries : List IndexedEntity
  pub seen : List Text
  pub invalid : Bool
  pub ambiguous : Bool

unfoldable pub fresh : Bool → Visited
fresh invalid = record { entries = []; seen = []; invalid = invalid; ambiguous = false }

unfoldable pub mark_invalid : Visited → Visited
mark_invalid s = record s { invalid = true }

unfoldable pub mark_ambiguous : Visited → Visited
mark_ambiguous s = record s { ambiguous = true }

unfoldable pub push : IndexedEntity → Visited → Visited
push entry s = record s { entries = s.entries ++ (entry ∷ []); seen = s.seen ++ (entry.key ∷ []) }

abbrev pub key_of : Option Text → Text → Text
key_of none semantic = codes "semantic:" ++ semantic
key_of (some id) semantic = codes "id:" ++ id

-- Where an item stands: its index among its siblings, its parent's key and path, and its depth.
pub record Place : Type 0 where
  pub index : ℕ
  pub parent_key : Option Text
  pub parent_path : Text
  pub depth : ℕ

abbrev pub following : Place → Place
following p = record p { index = suc p.index }

unfoldable pub entity_at : Place → EntityType → Option Text → Text → Fields → IndexedEntity
entity_at p kind source_id semantic item = record {
  key = key_of source_id semantic;
  source_id = source_id;
  entity_type = kind;
  parent_key = p.parent_key;
  previous_sibling_key = none;
  next_sibling_key = none;
  index = p.index;
  depth = p.depth;
  item = item;
  patch_fields = none;
}

-- The place of the first child of an entity.
abbrev pub inside : IndexedEntity → Text → Place
inside e semantic = record {
  index = 0;
  parent_key = some e.key;
  parent_path = semantic;
  depth = suc e.depth;
}

-- The entry of an item, unless its key was seen before, and then what its children add.
unfoldable pub enter_as : (Place → Visited → Visited) → IndexedEntity → Text → Visited → Visited
enter_as children entry semantic s =
    if any (λ k. k === entry.key) s.seen then mark_ambiguous s else elim entry.entity_type [
      | http_request ↦ push entry s
      | collection ↦ children (inside entry semantic) (push entry s)
    ]

abbrev pub is_folder : Fields → Bool
is_folder item = is_array (get item (codes "item"))

abbrev pub count_folders : Items → ℕ
count_folders nil = 0
count_folders (cons (obj item) items) =
    let rest = count_folders items in if is_folder item then suc rest else rest
count_folders (cons _ items) = count_folders items

abbrev pub same_parent : Option Text → Option Text → Bool
same_parent none none = true
same_parent (some k) (some l) = k === l
same_parent _ _ = false

abbrev pub are_siblings : IndexedEntity → IndexedEntity → Bool
are_siblings e f =
    same_parent e.parent_key f.parent_key && type_text e.entity_type === type_text f.entity_type

-- The sibling with the greatest index below that of the entry, or the least above it.
unfoldable pub previous_in : IndexedEntity → List IndexedEntity → Option IndexedEntity
previous_in e [] = none
previous_in e (f ∷ fs) =
    let rest = previous_in e fs in
    if are_siblings e f && ltb f.index e.index then later f rest else rest
  where
    later : IndexedEntity → Option IndexedEntity → Option IndexedEntity
    later f none = some f
    later f (some g) = if ltb g.index f.index then some f else some g

unfoldable pub next_in : IndexedEntity → List IndexedEntity → Option IndexedEntity
next_in e [] = none
next_in e (f ∷ fs) =
    let rest = next_in e fs in
    if are_siblings e f && ltb e.index f.index then earlier f rest else rest
  where
    earlier : IndexedEntity → Option IndexedEntity → Option IndexedEntity
    earlier f none = some f
    earlier f (some g) = if ltb f.index g.index then some f else some g

abbrev pub its_key : Option IndexedEntity → Option Text
its_key none = none
its_key (some e) = some e.key

unfoldable pub with_siblings : List IndexedEntity → IndexedEntity → IndexedEntity
with_siblings entries e = record e {
  previous_sibling_key = its_key (previous_in e entries);
  next_sibling_key = its_key (next_in e entries);
}

module _ (to_text : Json → Text) (to_upper : Text → Text) where
  unfoldable pub enter : (Place → Visited → Visited) → Place → Fields → Visited → Visited
  enter children p item s = elim (entity_type_of item) [
    | none ↦ mark_invalid s
    | some kind ↦
        let semantic = p.parent_path ++ (b'/' ∷ semantic_segment to_text to_upper item kind) in
        enter_as children (entity_at p kind (preserved_id item) semantic item) semantic s
  ]

  -- The items that are no folders come behind the folders. They have no children.
  unfoldable pub visit_others : Items → Place → Visited → Visited
  visit_others nil p s = s
  visit_others (cons (obj item) items) p s = elim (is_folder item) [
    | true ↦ visit_others items p s
    | false ↦ visit_others items (following p) (enter (λ q t. t) p item s)
  ]
  visit_others (cons null items) p s = visit_others items (following p) (mark_invalid s)
  visit_others (cons (bool b) items) p s = visit_others items (following p) (mark_invalid s)
  visit_others (cons (num z t) items) p s = visit_others items (following p) (mark_invalid s)
  visit_others (cons (str t) items) p s = visit_others items (following p) (mark_invalid s)
  visit_others (cons (arr xs) items) p s = visit_others items (following p) (mark_invalid s)

  unfoldable mutual
    pub visit_folders : Items → Place → Visited → Visited
    visit_folders nil p s = s
    visit_folders (cons (obj item) items) p s = elim (is_folder item) [
      | true ↦ visit_folders items (following p) (enter (λ q t. visit_children item q t) p item s)
      | false ↦ visit_folders items p s
    ]
    visit_folders (cons _ items) p s = visit_folders items p s

    -- The items of the field `item`.
    pub visit_children : Fields → Place → Visited → Visited
    visit_children end p s = s
    visit_children (field k v fields) p s = elim (k === codes "item") [
      | true ↦ visit v p s
      | false ↦ visit_children fields p s
    ]

    pub visit : Json → Place → Visited → Visited
    visit (arr items) p s =
        visit_others items (record p { index = count_folders items }) (visit_folders items p s)
    visit null p s = s
    visit (bool b) p s = s
    visit (num z t) p s = s
    visit (str t) p s = s
    visit (obj fs) p s = s

  unfoldable pub index_collection : Fields → Visited
  index_collection item =
      let s =
        visit_children item (record { index = 0; parent_key = none; parent_path = []; depth = 0 })
          (fresh (not (is_array (get item (codes "item"))))) in
      record s { entries = map (with_siblings s.entries) s.entries }
