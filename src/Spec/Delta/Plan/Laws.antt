-- ===== src/Spec/Delta/Plan/Laws.antt =====
-- A plan to be applied is within its limits (src/lib/spec/collection-delta.ts).
use postman_bootstrap_action.Base.{
  ℕ, ◌≤◌, Bool, false, not, ◌||◌, Option, none, some, List, Text, ◌===◌, is_empty, ltb, length, ◌≡◌,
  refl, if-both, arith,
}
use postman_bootstrap_action.Base.Json.{Json, Fields}
use postman_bootstrap_action.Base.Retry.{Tried, gave, threw}
use postman_bootstrap_action.Spec.Delta.{
  FallbackReason, Operation, DeltaPlan, unchanged, fallback, apply, IndexedEntity,
}
use postman_bootstrap_action.Spec.Delta.Identities.{normalize_desired_structural_identities}
use postman_bootstrap_action.Spec.Delta.Index.{Visited, index_collection}
use postman_bootstrap_action.Spec.Delta.Changes.{has_workflow}
use postman_bootstrap_action.Spec.Delta.Plan.{
  Classified, operations_of, classify, total_bytes, bounded, finish, plan_entries, plan_indexed,
  plan_records, root_digest, plan_normalized, plan_values, as_record, operations_limit, bytes_limit,
  plan_collection_delta,
}

module _ (compare_keys : Text → Text → Bool) (digest : Fields → Text) (byte_length : Text → ℕ)
    (number : ℕ → Text) where
  -- What holds of the operations of a plan that is to be applied.
  abbrev pub Applies : (ℕ → List Operation → Type 0) → DeltaPlan → Type 0
  Applies P unchanged = Unit
  Applies P (fallback reason bytes) = Unit
  Applies P (apply bytes operations) = P bytes operations

  abbrev pub IsWithin : ℕ → ℕ → ℕ → List Operation → Type 0
  IsWithin most_operations most_bytes bytes operations =
      (is_empty operations ≡ false)
      × ((length operations ≤ most_operations)
          × ((bytes ≡ total_bytes compare_keys digest byte_length number operations)
              × (bytes ≤ most_bytes)))

  module _ (most_operations most_bytes : ℕ) where
    bounded-IsWithin :
        (operations : List Operation)
        → Applies
            (IsWithin most_operations most_bytes)
            (bounded compare_keys digest byte_length number most_operations most_bytes operations)
    unfolding bounded
    bounded-IsWithin operations = ground arith

    bounded-same :
        (P : ℕ → List Operation → Type 0) (operations : List Operation)
        → ((bytes : ℕ) → P bytes operations)
        → Applies P
            (bounded compare_keys digest byte_length number most_operations most_bytes operations)
    unfolding bounded
    bounded-same P operations h = if-both (Applies P) (ltb most_operations (length operations)) tt (
        if-both (Applies P)
          (ltb most_bytes (total_bytes compare_keys digest byte_length number operations)) tt
          (if-both (Applies P) (is_empty operations) tt (h _)))

    finish-Applies :
        (P : ℕ → List Operation → Type 0) (before after : List IndexedEntity)
        (o : Tried FallbackReason Classified)
        → ((c : Classified)
            → o ≡ gave c
            → Applies P (
                bounded compare_keys digest byte_length number most_operations most_bytes
                  (operations_of compare_keys before after c)))
        → Applies P (
            finish compare_keys digest byte_length number most_operations most_bytes before after o)
    unfolding finish
    finish-Applies P before after (threw reason) h = tt
    finish-Applies P before after (gave c) h = h c refl

    pub plan_entries-Applies :
        (P : ℕ → List Operation → Type 0) (before after : List IndexedEntity)
        → ((c : Classified)
            → classify compare_keys digest before after ≡ gave c
            → (bytes : ℕ) → P bytes (operations_of compare_keys before after c))
        → Applies P (
            plan_entries compare_keys digest byte_length number most_operations most_bytes before
              after)
    unfolding plan_entries
    plan_entries-Applies P before after h =
        finish-Applies P before after (classify compare_keys digest before after)
          (λ c given. bounded-same P (operations_of compare_keys before after c) (h c given))

    plan_entries-IsWithin :
        (before after : List IndexedEntity)
        → Applies (IsWithin most_operations most_bytes) (
            plan_entries compare_keys digest byte_length number most_operations most_bytes before
              after)
    unfolding plan_entries
    plan_entries-IsWithin before after =
        finish-Applies (IsWithin most_operations most_bytes) before after
          (classify compare_keys digest before after)
          (λ c given. bounded-IsWithin (operations_of compare_keys before after c))

    plan_indexed-Applies :
        (P : ℕ → List Operation → Type 0) (before after : Visited)
        → Applies P (
            plan_entries compare_keys digest byte_length number most_operations most_bytes
              before.entries after.entries)
        → Applies P (
            plan_indexed compare_keys digest byte_length number most_operations most_bytes before
              after)
    unfolding plan_indexed
    plan_indexed-Applies P before after h =
        if-both (Applies P) (before.invalid || after.invalid) tt
          (if-both (Applies P) (before.ambiguous || after.ambiguous) tt h)

  module _ (to_text : Json → Text) (to_upper : Text → Text) where
    abbrev root_of : Fields → Text
    root_of = root_digest compare_keys digest byte_length number to_text to_upper

    abbrev as_record_of : Json → Option Fields
    as_record_of = as_record compare_keys digest byte_length number to_text to_upper

    abbrev pub entries_of : Fields → List IndexedEntity
    entries_of c = (index_collection to_text to_upper c).entries

    pub plan_records-Applies :
        (most_operations most_bytes : ℕ) (P : ℕ → List Operation → Type 0)
        (snapshot desired : Fields)
        → Applies P (
            plan_entries compare_keys digest byte_length number most_operations most_bytes
              (entries_of snapshot)
              (entries_of desired))
        → Applies P (
            plan_records compare_keys digest byte_length number to_text to_upper most_operations
              most_bytes snapshot desired)
    unfolding plan_records
    plan_records-Applies most_operations most_bytes P snapshot desired h =
        if-both (Applies P) (digest snapshot === digest desired) tt (
          if-both (Applies P) (has_workflow snapshot || has_workflow desired) tt (
            if-both (Applies P) (not (root_of snapshot === root_of desired)) tt (
              plan_indexed-Applies most_operations most_bytes P
                (index_collection to_text to_upper snapshot)
                (index_collection to_text to_upper desired) h)))

    pub plan_normalized-Applies :
        (most_operations most_bytes : ℕ) (P : ℕ → List Operation → Type 0) (snapshot : Fields)
        (normalized : Fields × Bool)
        → Applies P (
            plan_entries compare_keys digest byte_length number most_operations most_bytes
              (entries_of snapshot)
              (entries_of (normalized.0)))
        → Applies P (
            plan_normalized compare_keys digest byte_length number to_text to_upper most_operations
              most_bytes snapshot normalized)
    unfolding plan_normalized
    plan_normalized-Applies most_operations most_bytes P snapshot (desired, ambiguous) h =
        if-both (Applies P) ambiguous tt
          (plan_records-Applies most_operations most_bytes P snapshot desired h)

    plan_values-IsWithin :
        (most_operations most_bytes : ℕ) (s d : Option Fields)
        → Applies (IsWithin most_operations most_bytes) (
            plan_values compare_keys digest byte_length number to_text to_upper most_operations
              most_bytes s d)
    unfolding plan_values
    plan_values-IsWithin most_operations most_bytes (some snapshot) (some desired) =
        plan_normalized-Applies most_operations most_bytes (IsWithin most_operations most_bytes)
          snapshot (normalize_desired_structural_identities to_text to_upper snapshot desired)
          (plan_entries-IsWithin most_operations most_bytes (entries_of snapshot) (
            entries_of
              ((normalize_desired_structural_identities to_text to_upper snapshot desired).0)))
    plan_values-IsWithin most_operations most_bytes (some snapshot) none = tt
    plan_values-IsWithin most_operations most_bytes none d = tt

    -- A plan that is to be applied has an operation, has no more of them than the limit, five by
    -- default, and says how many bytes they change in all, which are within the limit, 64 KiB by
    -- default. The other plans carry no operations.
    pub plan_collection_delta-IsWithin :
        (snapshot desired : Json) (max_operations max_changed_bytes : Option ℕ)
        → Applies
            (IsWithin
              (operations_limit compare_keys digest byte_length number to_text to_upper
                max_operations)
              (bytes_limit compare_keys digest byte_length number to_text to_upper
                max_changed_bytes))
            (plan_collection_delta compare_keys digest byte_length number to_text to_upper snapshot
              desired max_operations max_changed_bytes)
    unfolding plan_collection_delta
    plan_collection_delta-IsWithin snapshot desired max_operations max_changed_bytes =
        plan_values-IsWithin _ _ (as_record_of snapshot) (as_record_of desired)
