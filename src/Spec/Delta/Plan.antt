-- ===== src/Spec/Delta/Plan.antt =====
-- src/lib/spec/collection-delta.ts, planCollectionDelta.
pub mod Laws
pub mod Carried
mod Tests
use postman_bootstrap_action.Base.{
  ℕ, ◌+◌, ◌*◌, ◌==◌, Bool, true, false, not, ◌&&◌, ◌||◌, Option, none, some, List, [], ◌∷◌, ◌++◌,
  map, Text, codes, ◌===◌, is_empty, ltb, is_some, or_else, any, length, if◌then◌else◌,
}
use postman_bootstrap_action.Base.Json.{Json, Fields, obj, arr, nil}
use postman_bootstrap_action.Base.Retry.{Tried, gave, threw, ◌>>=◌}
use postman_bootstrap_action.Spec.Delta.{
  EntityType, OperationKind, create, patch, move, delete, PatchField, FallbackReason,
  ambiguous_semantic_key, invalid_collection_shape, operation_count_exceeded,
  changed_bytes_exceeded, unsupported_root_attribute, unsupported_workflow_shape,
  unsupported_entity_transform, Operation, DeltaPlan, unchanged, fallback, apply, IndexedEntity,
  put_field, remove_field, type_text,
}
use postman_bootstrap_action.Spec.Delta.Identities.{normalize_desired_structural_identities}
use postman_bootstrap_action.Spec.Delta.Index.{Visited, index_collection, same_parent}
use postman_bootstrap_action.Spec.Delta.Changes.{
  has_workflow, unsupported_create_transform, unsupported_transform, entity_content_digest,
  planned_patch_fields, operation, operation_changed_bytes,
}

abbrev pub max_operations_default : ℕ
max_operations_default = 5

abbrev pub max_changed_bytes_default : ℕ
max_changed_bytes_default = 64 * 1024

-- `Array.prototype.sort` by a test whether one element is before another. The sort is stable.
module _ {A : Type 0} (is_before : A → A → Bool) where
  unfoldable pub insert_sorted : A → List A → List A
  insert_sorted x [] = x ∷ []
  insert_sorted x (y ∷ ys) =
      let rest = insert_sorted x ys in if is_before y x then y ∷ rest else x ∷ y ∷ ys

  unfoldable pub sort_before : List A → List A
  sort_before [] = []
  sort_before (x ∷ xs) = insert_sorted x (sort_before xs)

-- `new Map(entries.map((entry) => [entry.key, entry])).get(key)`: the last entry of a key counts.
unfoldable pub find_entry : Text → List IndexedEntity → Option IndexedEntity
find_entry key [] = none
find_entry key (e ∷ es) = or_else (find_entry key es) (if e.key === key then some e else none)

unfoldable pub filter_entries : (IndexedEntity → Bool) → List IndexedEntity → List IndexedEntity
filter_entries test [] = []
filter_entries test (e ∷ es) =
    let rest = filter_entries test es in if test e then e ∷ rest else rest

pub record Classified : Type 0 where
  pub creates : List IndexedEntity
  pub patches : List IndexedEntity
  pub moves : List IndexedEntity

unfoldable pub has_moved : IndexedEntity → IndexedEntity → Bool
has_moved previous e =
    not (same_parent previous.parent_key e.parent_key) || not (previous.index == e.index)

-- The least number in front; `compare_keys` is `localeCompare` as the test whether it is negative.
module _ (compare_keys : Text → Text → Bool) where
  abbrev text_or_blank : Option Text → Text
  text_or_blank none = []
  text_or_blank (some t) = t

  -- The first comparison that decides: each is whether one is before the other, and the reverse.
  abbrev first_decides : List (Bool × Bool) → Bool
  first_decides [] = false
  first_decides ((less, more) ∷ rest) =
      if less then true else if more then false else first_decides rest

  abbrev by_key : IndexedEntity → IndexedEntity → Bool × Bool
  by_key a b = (compare_keys a.key b.key, compare_keys b.key a.key)

  abbrev shallower : IndexedEntity → IndexedEntity → Bool × Bool
  shallower a b = (ltb a.depth b.depth, ltb b.depth a.depth)

  unfoldable pub create_before : IndexedEntity → IndexedEntity → Bool
  create_before a b = first_decides (
      shallower a b
      ∷ (
        compare_keys (text_or_blank a.parent_key) (text_or_blank b.parent_key),
        compare_keys (text_or_blank b.parent_key) (text_or_blank a.parent_key),
      )
      ∷ (ltb b.index a.index, ltb a.index b.index)
      ∷ by_key a b
      ∷ [])

  unfoldable pub patch_before : IndexedEntity → IndexedEntity → Bool
  patch_before a b = first_decides (by_key a b ∷ [])

  unfoldable pub move_before : IndexedEntity → IndexedEntity → Bool
  move_before a b = first_decides (shallower a b ∷ by_key a b ∷ [])

  unfoldable pub delete_before : IndexedEntity → IndexedEntity → Bool
  delete_before a b = first_decides (shallower b a ∷ by_key a b ∷ [])

  -- A move to another parent, or to a later place.
  unfoldable pub is_explicit : List IndexedEntity → IndexedEntity → Bool
  is_explicit before e = elim (find_entry e.key before) [
    | none ↦ is_some e.parent_key
    | some previous ↦
        not (same_parent previous.parent_key e.parent_key) || ltb previous.index e.index
  ]

  unfoldable pub ordered_moves : List IndexedEntity → List IndexedEntity → List IndexedEntity
  ordered_moves before moves =
      let explicit = filter_entries (is_explicit before) moves in
      sort_before move_before (if is_empty explicit then moves else explicit)

  unfoldable pub deletes_of : List IndexedEntity → List IndexedEntity → List IndexedEntity
  deletes_of before after = filter_entries (λ e. not (is_some (find_entry e.key after))) before

  unfoldable pub operations_of :
      List IndexedEntity → List IndexedEntity → Classified → List Operation
  operations_of before after c =
      map (operation delete) (sort_before delete_before (deletes_of before after))
      ++ (map (operation create) (sort_before create_before c.creates)
          ++ (map (operation patch) (sort_before patch_before c.patches)
              ++ map (operation move) (ordered_moves before c.moves)))

  module _ (digest : Fields → Text) where
    unfoldable pub content_changed : Fields → Fields → Bool
    content_changed before after = not (
        entity_content_digest digest
          (remove_field (codes "item") (remove_field (codes "id") before))
        === entity_content_digest digest
            (remove_field (codes "item") (remove_field (codes "id") after)))

    abbrev pub add_create : IndexedEntity → Classified → Classified
    add_create e c = record c { creates = e ∷ c.creates }

    abbrev pub add_patch : Option IndexedEntity → Classified → Classified
    add_patch none c = c
    add_patch (some e) c = record c { patches = e ∷ c.patches }

    abbrev pub add_move : Bool → IndexedEntity → Classified → Classified
    add_move moved e c = if moved then record c { moves = e ∷ c.moves } else c

    abbrev pub supported : Option FallbackReason → Tried FallbackReason (Unit {0})
    supported none = gave tt
    supported (some reason) = threw reason

    unfoldable pub patched :
        IndexedEntity → List PatchField → Tried FallbackReason (Option IndexedEntity)
    patched e [] = threw unsupported_entity_transform
    patched e (f ∷ fs) = gave (some (record e { patch_fields = some (f ∷ fs) }))

    unfoldable pub patch_of :
        IndexedEntity → IndexedEntity → Tried FallbackReason (Option IndexedEntity)
    patch_of previous e =
        if content_changed previous.item e.item
        then planned_patch_fields digest previous.item e.item >>= patched e
        else gave none

    -- An entity that was there before: its patch, if there is one.
    unfoldable pub compare_with :
        IndexedEntity → IndexedEntity → Tried FallbackReason (Option IndexedEntity)
    compare_with previous e =
        if not (type_text previous.entity_type === type_text e.entity_type)
        then threw unsupported_entity_transform
        else supported (unsupported_transform digest previous.item e.item)
          >>= (λ done. patch_of previous e)

    unfoldable pub classify_one :
        IndexedEntity
        → Option IndexedEntity
        → Tried FallbackReason Classified
        → Tried FallbackReason Classified
    classify_one e none rest = do
      done ← supported (unsupported_create_transform e.item)
      c ← rest
      gave (add_create e c)
    classify_one e (some previous) rest = do
      changed ← compare_with previous e
      c ← rest
      gave (add_move (has_moved previous e) e (add_patch changed c))

    -- The entities in order; the first that is not supported decides.
    unfoldable pub classify :
        List IndexedEntity → List IndexedEntity → Tried FallbackReason Classified
    classify before [] = gave (record { creates = []; patches = []; moves = [] })
    classify before (e ∷ es) = classify_one e (find_entry e.key before) (classify before es)

    module _ (byte_length : Text → ℕ) (number : ℕ → Text) where
      unfoldable pub total_bytes : List Operation → ℕ
      total_bytes [] = 0
      total_bytes (o ∷ os) = operation_changed_bytes byte_length number o + total_bytes os

      unfoldable pub bounded : ℕ → ℕ → List Operation → DeltaPlan
      bounded most_operations most_bytes operations =
          if ltb most_operations (length operations)
          then fallback operation_count_exceeded (total_bytes operations)
          else if ltb most_bytes (total_bytes operations)
          then fallback changed_bytes_exceeded (total_bytes operations)
          else if is_empty operations
          then fallback unsupported_root_attribute (total_bytes operations)
          else apply (total_bytes operations) operations

      unfoldable pub finish :
          ℕ
          → ℕ
          → List IndexedEntity
          → List IndexedEntity
          → Tried FallbackReason Classified
          → DeltaPlan
      finish most_operations most_bytes before after (threw reason) = fallback reason 0
      finish most_operations most_bytes before after (gave c) =
          bounded most_operations most_bytes (operations_of before after c)

      unfoldable pub plan_entries : ℕ → ℕ → List IndexedEntity → List IndexedEntity → DeltaPlan
      plan_entries most_operations most_bytes before after =
          finish most_operations most_bytes before after (classify before after)

      unfoldable pub plan_indexed : ℕ → ℕ → Visited → Visited → DeltaPlan
      plan_indexed most_operations most_bytes before after =
          if before.invalid || after.invalid
          then fallback invalid_collection_shape 0
          else if before.ambiguous || after.ambiguous
          then fallback ambiguous_semantic_key 0
          else plan_entries most_operations most_bytes before.entries after.entries

      module _ (to_text : Json → Text) (to_upper : Text → Text) where
        abbrev pub root_digest : Fields → Text
        root_digest c = digest (put_field (codes "item") (arr nil) c)

        unfoldable pub plan_records : ℕ → ℕ → Fields → Fields → DeltaPlan
        plan_records most_operations most_bytes snapshot desired =
            if digest snapshot === digest desired
            then unchanged
            else if has_workflow snapshot || has_workflow desired
            then fallback unsupported_workflow_shape 0
            else if not (root_digest snapshot === root_digest desired)
            then fallback unsupported_root_attribute 0
            else plan_indexed most_operations most_bytes
                (index_collection to_text to_upper snapshot)
                (index_collection to_text to_upper desired)

        abbrev or_default : ℕ → Option ℕ → ℕ
        or_default n none = n
        or_default n (some m) = m

        abbrev pub operations_limit : Option ℕ → ℕ
        operations_limit = or_default max_operations_default

        abbrev pub bytes_limit : Option ℕ → ℕ
        bytes_limit = or_default max_changed_bytes_default

        unfoldable pub plan_normalized : ℕ → ℕ → Fields → Fields × Bool → DeltaPlan
        plan_normalized most_operations most_bytes snapshot (desired, ambiguous) =
            if ambiguous
            then fallback ambiguous_semantic_key 0
            else plan_records most_operations most_bytes snapshot desired

        abbrev pub as_record : Json → Option Fields
        as_record (obj fs) = some fs
        as_record _ = none

        unfoldable pub plan_values : ℕ → ℕ → Option Fields → Option Fields → DeltaPlan
        plan_values most_operations most_bytes (some snapshot) (some desired) =
            plan_normalized most_operations most_bytes snapshot
              (normalize_desired_structural_identities to_text to_upper snapshot desired)
        plan_values most_operations most_bytes (some snapshot) none =
            fallback invalid_collection_shape 0
        plan_values most_operations most_bytes none desired = fallback invalid_collection_shape 0

        unfoldable pub plan_collection_delta : Json → Json → Option ℕ → Option ℕ → DeltaPlan
        plan_collection_delta snapshot desired max_operations max_changed_bytes =
            plan_values (operations_limit max_operations) (bytes_limit max_changed_bytes)
              (as_record snapshot) (as_record desired)
