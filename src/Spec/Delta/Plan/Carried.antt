-- ===== src/Spec/Delta/Plan/Carried.antt =====
-- The operations of a plan turn the entities of the one collection into those of the other
-- (src/lib/spec/collection-delta.ts).
use postman_bootstrap_action.Base.{
  ℕ, Bool, true, false, not, ◌&&◌, ◌||◌, Option, none, some, List, [], ◌∷◌, ◌++◌, map, Text, ◌===◌,
  any, any-append, is_some, ◌≡◌, refl, sym, ap, ◌∙◌, inl, inr, Bool-cases, arith,
}
use postman_bootstrap_action.Base.Finding.{===→≡}
use postman_bootstrap_action.Base.Json.{Json, Fields, obj}
use postman_bootstrap_action.Base.Retry.{Tried, gave, gave-injective, >>=-eq-gave}
use postman_bootstrap_action.Spec.Delta.Identities.{normalize_desired_structural_identities}
use postman_bootstrap_action.Spec.Delta.{
  OperationKind, create, patch, move, delete, FallbackReason, Operation, IndexedEntity,
}
use postman_bootstrap_action.Spec.Delta.Changes.{operation, unsupported_create_transform}
use postman_bootstrap_action.Spec.Delta.Plan.{
  insert_sorted, sort_before, find_entry, filter_entries, Classified, deletes_of, operations_of,
  ordered_moves, classify_one, classify, plan_entries, plan_values, plan_collection_delta,
  delete_before, create_before, patch_before, supported, compare_with, add_patch, add_move,
  has_moved,
}
use postman_bootstrap_action.Spec.Delta.Plan.Laws.{
  Applies, plan_entries-Applies, plan_normalized-Applies, entries_of,
}

abbrev pub has_key : Text → List IndexedEntity → Bool
has_key k = any (λ (e : IndexedEntity). e.key === k)

abbrev pub is_kind : OperationKind → OperationKind → Bool
is_kind create create = true
is_kind patch patch = true
is_kind move move = true
is_kind delete delete = true
is_kind _ _ = false

-- Some operation of the kind is on this key.
abbrev pub does : OperationKind → Text → List Operation → Bool
does kind k = any (λ (o : Operation). is_kind kind o.kind && o.key === k)

does-map_other :
    (kind other : OperationKind) (k : Text) (es : List IndexedEntity)
    → is_kind kind other ≡ false
    → does kind k (map (operation other) es) ≡ false
unfolding operation
does-map_other kind other k [] h = refl
does-map_other kind other k (e ∷ es) h = rw h (does-map_other kind other k es h)

does-map :
    (kind : OperationKind) (k : Text) (es : List IndexedEntity)
    → is_kind kind kind ≡ true
    → does kind k (map (operation kind) es) ≡ has_key k es
unfolding operation
does-map kind k [] h = refl
does-map kind k (e ∷ es) h = rw h (ap (λ z. (e.key === k) || z) (does-map kind k es h))

module _ (is_before : IndexedEntity → IndexedEntity → Bool) where
  has_key-insert_sorted :
      (k : Text) (e : IndexedEntity) (es : List IndexedEntity)
      → has_key k (insert_sorted is_before e es) ≡ ((e.key === k) || has_key k es)
  unfolding insert_sorted
  has_key-insert_sorted k e [] = refl
  has_key-insert_sorted k e (f ∷ es) = ground (arith, has_key-insert_sorted k e es)

  has_key-sort_before :
      (k : Text) (es : List IndexedEntity) → has_key k (sort_before is_before es) ≡ has_key k es
  unfolding sort_before
  has_key-sort_before k [] = refl
  has_key-sort_before k (e ∷ es) =
      has_key-insert_sorted k e (sort_before is_before es)
      ∙ ap (λ z. (e.key === k) || z) (has_key-sort_before k es)

find_entry-has_key : (k : Text) (es : List IndexedEntity) → is_some (find_entry k es) ≡ has_key k es
unfolding find_entry
find_entry-has_key k [] = refl
find_entry-has_key k (e ∷ es) = ground (arith, find_entry-has_key k es)

-- A test that depends on the key alone.
has_key-filter_entries :
    (k : Text) (test : Text → Bool) (es : List IndexedEntity)
    → has_key k (filter_entries (λ e. test e.key) es) ≡ (has_key k es && test k)
unfolding filter_entries
has_key-filter_entries k test [] = refl
has_key-filter_entries k test (e ∷ es) = elim (Bool-cases (e.key === k)) [
  | inl same ↦
      let alike : test e.key ≡ test k = ap test (===→≡ e.key k same) in
      ground (arith, has_key-filter_entries k test es)
  | inr other ↦ ground (arith, has_key-filter_entries k test es)
]

creates-add_move :
    (compare_keys : Text → Text → Bool) (digest : Fields → Text) (b : Bool) (e : IndexedEntity)
    (o : Option IndexedEntity) (c : Classified)
    → (add_move compare_keys digest b e (add_patch compare_keys digest o c)).creates ≡ c.creates
creates-add_move compare_keys digest true e none c = refl
creates-add_move compare_keys digest true e (some f) c = refl
creates-add_move compare_keys digest false e none c = refl
creates-add_move compare_keys digest false e (some f) c = refl

does-four :
    (kind : OperationKind) (k : Text) (a b c d : List Operation)
    → does kind k (a ++ (b ++ (c ++ d)))
      ≡ (does kind k a || (does kind k b || (does kind k c || does kind k d)))
does-four kind k a b c d =
    any-append (λ o. is_kind kind o.kind && o.key === k) a (b ++ (c ++ d))
    ∙ ap (λ z. does kind k a || z)
        (any-append (λ o. is_kind kind o.kind && o.key === k) b (c ++ d)
          ∙ ap (λ z. does kind k b || z) (any-append (λ o. is_kind kind o.kind && o.key === k) c d))

module _ (compare_keys : Text → Text → Bool) (digest : Fields → Text) where
  -- An entity is created exactly when it was not there before.
  classify_one-creates :
      (k : Text) (e : IndexedEntity) (o : Option IndexedEntity)
      (rest : Tried FallbackReason Classified) {c : Classified}
      → classify_one compare_keys digest e o rest ≡ gave c
      → (d : Classified) × ((rest ≡ gave d)
          × (has_key k c.creates ≡ ((e.key === k && not (is_some o)) || has_key k d.creates)))
  unfolding classify_one
  classify_one-creates k e none rest h =
      let (done, e₁, h₁) =
        >>=-eq-gave (supported compare_keys digest (unsupported_create_transform e.item)) _ h in
      let (d, e₂, h₂) = >>=-eq-gave rest _ h₁ in
      (d, (e₂, ap (λ z. has_key k (z.creates)) (sym (gave-injective h₂)) ∙ ground arith))
  classify_one-creates k e (some previous) rest h =
      let (changed, e₁, h₁) = >>=-eq-gave (compare_with compare_keys digest previous e) _ h in
      let (d, e₂, h₂) = >>=-eq-gave rest _ h₁ in
      (
        d,
        (
          e₂,
          ap (λ z. has_key k (z.creates)) (sym (gave-injective h₂))
              ∙ (ap (has_key k)
                    (creates-add_move compare_keys digest (has_moved previous e) e changed d)
                  ∙ ground arith),
        ),
      )

  classify-creates :
      (k : Text) (before after : List IndexedEntity) (c : Classified)
      → classify compare_keys digest before after ≡ gave c
      → has_key k c.creates ≡ (has_key k after && not (has_key k before))
  unfolding classify
  classify-creates k before [] c h = ap (λ z. has_key k (z.creates)) (sym (gave-injective h))
  classify-creates k before (e ∷ es) c h =
      let (d, (e₁, same)) =
        classify_one-creates k e (find_entry e.key before) (classify compare_keys digest before es)
          h in
      let later = classify-creates k before es d e₁ in
      let there = find_entry-has_key e.key before in
      elim (Bool-cases (e.key === k)) [
        | inl here ↦
            let alike : has_key e.key before ≡ has_key k before =
              ap (λ z. has_key z before) (===→≡ e.key k here) in
            ground arith
        | inr other ↦ ground arith
      ]

  deletes_of-has_key :
      (k : Text) (before after : List IndexedEntity)
      → has_key k (deletes_of compare_keys before after)
        ≡ (has_key k before && not (has_key k after))
  unfolding deletes_of
  deletes_of-has_key k before after =
      has_key-filter_entries k (λ t. not (is_some (find_entry t after))) before
      ∙ ap (λ z. has_key k before && not z) (find_entry-has_key k after)

  does-operations_of :
      (kind : OperationKind) (k : Text) (before after : List IndexedEntity) (c : Classified)
      → does kind k (operations_of compare_keys before after c) ≡ (
          does kind k (
            map
              (operation delete)
              (sort_before (delete_before compare_keys) (deletes_of compare_keys before after)))
          || (does kind k
                (map (operation create) (sort_before (create_before compare_keys) c.creates))
              || (does kind k
                    (map (operation patch) (sort_before (patch_before compare_keys) c.patches))
                  || does kind k
                      (map (operation move) (ordered_moves compare_keys before c.moves)))))
  unfolding operations_of
  does-operations_of kind k before after c =
      does-four kind k
        (map (operation delete)
          (sort_before (delete_before compare_keys) (deletes_of compare_keys before after)))
        (map (operation create) (sort_before (create_before compare_keys) c.creates))
        (map (operation patch) (sort_before (patch_before compare_keys) c.patches))
        (map (operation move) (ordered_moves compare_keys before c.moves))

  does-delete :
      (k : Text) (before after : List IndexedEntity) (c : Classified)
      → does delete k (operations_of compare_keys before after c)
        ≡ (has_key k before && not (has_key k after))
  does-delete k before after c =
      does-operations_of delete k before after c
      ∙ rw
          (does-map delete k
            (sort_before (delete_before compare_keys) (deletes_of compare_keys before after)) refl)
          (rw
            (has_key-sort_before (delete_before compare_keys) k
              (deletes_of compare_keys before after))
            (rw (deletes_of-has_key k before after) (
              rw
                (does-map_other delete create k (sort_before (create_before compare_keys) c.creates)
                  refl)
                (rw
                  (does-map_other delete patch k (sort_before (patch_before compare_keys) c.patches)
                    refl)
                  (rw
                    (does-map_other delete move k (ordered_moves compare_keys before c.moves) refl)
                    (ground arith))))))

  does-create :
      (k : Text) (before after : List IndexedEntity) (c : Classified)
      → classify compare_keys digest before after ≡ gave c
      → does create k (operations_of compare_keys before after c)
        ≡ (has_key k after && not (has_key k before))
  does-create k before after c h =
      does-operations_of create k before after c
      ∙ rw
          (does-map_other create delete k
            (sort_before (delete_before compare_keys) (deletes_of compare_keys before after)) refl)
          (rw (does-map create k (sort_before (create_before compare_keys) c.creates) refl) (
            rw (has_key-sort_before (create_before compare_keys) k c.creates) (
              rw (classify-creates k before after c h) (
                rw
                  (does-map_other create patch k (sort_before (patch_before compare_keys) c.patches)
                    refl)
                  (rw
                    (does-map_other create move k (ordered_moves compare_keys before c.moves) refl)
                    (ground arith))))))

-- An entity is deleted exactly if it was there and is not wanted, and created exactly if it is
-- wanted and was not there.
abbrev pub Carries : List IndexedEntity → List IndexedEntity → List Operation → Type 0
Carries before after operations =
    (k : Text)
    → (does delete k operations ≡ (has_key k before && not (has_key k after)))
      × (does create k operations ≡ (has_key k after && not (has_key k before)))

module _ (compare_keys : Text → Text → Bool) (digest : Fields → Text) (byte_length : Text → ℕ)
    (number : ℕ → Text) (to_text : Json → Text) (to_upper : Text → Text) where
  abbrev entries : Fields → List IndexedEntity
  entries = entries_of compare_keys digest byte_length number to_text to_upper

  abbrev normalized : Fields → Fields → Fields × Bool
  normalized = normalize_desired_structural_identities to_text to_upper

  plan_entries-Carries :
      (most_operations most_bytes : ℕ) (before after : List IndexedEntity)
      → Applies compare_keys digest byte_length number
          (λ bytes. Carries before after)
          (plan_entries compare_keys digest byte_length number most_operations most_bytes before
            after)
  plan_entries-Carries most_operations most_bytes before after =
      plan_entries-Applies compare_keys digest byte_length number most_operations most_bytes
        (λ bytes. Carries before after) before after
        (λ c given bytes k. (
          does-delete compare_keys digest k before after c,
          does-create compare_keys digest k before after c given,
        ))

  -- A plan that is to be applied to a collection deletes and creates exactly what it must: a key is
  -- deleted exactly if an entity of the snapshot has it and none of the desired collection, and
  -- created exactly if one of the desired collection has it and none of the snapshot. The desired
  -- collection has the ids of the snapshot. A key is an entity's id, or its path.
  pub plan_collection_delta-Carries :
      (snapshot desired : Fields) (max_operations max_changed_bytes : Option ℕ)
      → Applies compare_keys digest byte_length number
          (λ bytes. Carries (entries snapshot) (entries ((normalized snapshot desired).0)))
          (plan_collection_delta compare_keys digest byte_length number to_text to_upper
            (obj snapshot)
            (obj desired)
            max_operations
            max_changed_bytes)
  unfolding plan_collection_delta plan_values
  plan_collection_delta-Carries snapshot desired max_operations max_changed_bytes =
      plan_normalized-Applies compare_keys digest byte_length number to_text to_upper _ _
        (λ bytes. Carries (entries snapshot) (entries ((normalized snapshot desired).0))) snapshot
        (normalized snapshot desired)
        (plan_entries-Carries _ _ (entries snapshot) (entries ((normalized snapshot desired).0)))
