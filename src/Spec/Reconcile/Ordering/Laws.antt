-- ===== src/Spec/Reconcile/Ordering/Laws.antt =====
-- The order of the operations (src/lib/postman/spec-file-reconcile.ts, orderPerFileReconcileOps).
use postman_bootstrap_action.Base.{
  ◌≤◌, Bool, true, false, not, ◌||◌, none, some, List, [], ◌∷◌, ◌++◌, Text, any, any-append, length,
  ◌≡◌, refl, ap₂, ◌∙◌, arith, Bool-cases, inl, inr,
}
use postman_bootstrap_action.Base.Contract.{ok, >>=-eq-ok, Ensures-ok}
use postman_bootstrap_action.Base.Sorting.{sort_by, any-sort_by}
use postman_bootstrap_action.Spec.Reconcile.{
  CloudSpecFileMeta, CreateEntry, UpdateEntry, SpecFileReconcilePlan,
}
use postman_bootstrap_action.Spec.Reconcile.Ordering.{
  PerFileReconcileOp, update_op, delete_op, op_path, find_by_id, is_root_meta, creates_of, Updates,
  place, at_end, path_for, place_updates, deletes_of, order_per_file_reconcile_ops,
}

module _ (cloud : List CloudSpecFileMeta) where
  -- Changes the content of a root file.
  abbrev pub is_root_update : PerFileReconcileOp → Bool
  is_root_update (update_op path id content) = is_root_meta (find_by_id cloud id)
  is_root_update _ = false

  abbrev pub is_delete : PerFileReconcileOp → Bool
  is_delete (delete_op path id) = true
  is_delete _ = false

  -- First what neither deletes nor touches a root, then at most one update of a root, then deletions.
  pub record IsPhased (ops : List PerFileReconcileOp) : Type 0 where
    pub first : List PerFileReconcileOp
    pub middle : List PerFileReconcileOp
    pub final : List PerFileReconcileOp
    pub splits : ops ≡ first ++ (middle ++ final)
    pub first_upserts : any (λ op. is_delete op || is_root_update op) first ≡ false
    pub middle_root : any (λ op. not (is_root_update op)) middle ≡ false
    pub middle_single : length middle ≤ 1
    pub final_deletes : any (λ op. not (is_delete op)) final ≡ false

  module _ (nfc to_lower : Text → Text) where
    creates_of_lem :
        (es : List CreateEntry)
        → any (λ op. is_delete op || is_root_update op) (creates_of es) ≡ false
    unfolding creates_of
    creates_of_lem [] = refl
    creates_of_lem (e ∷ es) = creates_of_lem es

    abbrev IsPlaced : Updates → Type 0
    IsPlaced r =
        (any (λ op. is_delete op || is_root_update op) r.0 ≡ false)
        × ((any (λ op. not (is_root_update op)) (at_end r.1) ≡ false) × (length (at_end r.1) ≤ 1))

    place-IsPlaced :
        (path : Text) (u : UpdateEntry) (rest : Updates)
        → IsPlaced rest
        → IsPlaced
            (place (is_root_meta (find_by_id cloud u.id)) (update_op path u.id u.content) rest)
    unfolding place
    place-IsPlaced path u (others, none) h =
        elim (Bool-cases (is_root_meta (find_by_id cloud u.id))) [
          | inl root_it_is ↦ rw root_it_is (h.0, ground arith)
          | inr other ↦ rw other (ground arith)
        ]
    place-IsPlaced path u (others, some op) h =
        elim (Bool-cases (is_root_meta (find_by_id cloud u.id))) [
          | inl root_it_is ↦ rw root_it_is h
          | inr other ↦ rw other (ground arith)
        ]

    place_updates_lem :
        (us : List UpdateEntry) (r : Updates)
        → place_updates nfc to_lower cloud us ≡ ok r
        → IsPlaced r
    unfolding place_updates
    place_updates_lem [] r h = Ensures-ok IsPlaced (refl, (refl, omega arith)) h
    place_updates_lem (u ∷ us) r h =
        let (path, _, h1) = >>=-eq-ok (path_for nfc to_lower cloud u.id) _ h in
        let (rest, others, h2) = >>=-eq-ok (place_updates nfc to_lower cloud us) _ h1 in
        Ensures-ok IsPlaced (place-IsPlaced path u rest (place_updates_lem us rest others)) h2

    deletes_of_lem :
        (ids : List Text) (ops : List PerFileReconcileOp)
        → deletes_of nfc to_lower cloud ids ≡ ok ops
        → any (λ op. not (is_delete op)) ops ≡ false
    unfolding deletes_of
    deletes_of_lem [] ops h = ground arith
    deletes_of_lem (id ∷ ids) ops h =
        let (path, _, h1) = >>=-eq-ok (path_for nfc to_lower cloud id) _ h in
        let (rest, others, h2) = >>=-eq-ok (deletes_of nfc to_lower cloud ids) _ h1 in
        let ih = deletes_of_lem ids rest others in ground arith

    -- The operations come in three phases: first everything that neither deletes nor updates a root
    -- file, then at most one update, of a root file, then the deletions. So the root is only written when
    -- all other writes were, and nothing is removed before that.
    pub order_per_file_reconcile_ops-IsPhased :
        (plan : SpecFileReconcilePlan) (ops : List PerFileReconcileOp)
        → order_per_file_reconcile_ops nfc to_lower cloud plan ≡ ok ops
        → IsPhased ops
    unfolding order_per_file_reconcile_ops
    order_per_file_reconcile_ops-IsPhased plan ops h =
        let (updates, placed, h1) = >>=-eq-ok (place_updates nfc to_lower cloud plan.update) _ h in
        let (deletes, listed, h2) = >>=-eq-ok (deletes_of nfc to_lower cloud plan.delete) _ h1 in
        let (others, (roots, single)) = place_updates_lem plan.update updates placed in
        let upserting : PerFileReconcileOp → Bool = λ op. is_delete op || is_root_update op in
        let firsts = creates_of plan.create ++ updates.0 in
        Ensures-ok IsPhased
          (record {
            first = sort_by op_path firsts;
            middle = at_end updates.1;
            final = sort_by op_path deletes;
            splits = refl;
            first_upserts =
                any-sort_by op_path upserting firsts
                ∙ any-append upserting (creates_of plan.create) updates.0
                ∙ ap₂ ◌||◌ (creates_of_lem plan.create) others;
            middle_root = roots;
            middle_single = single;
            final_deletes =
                any-sort_by op_path (λ op. not (is_delete op)) deletes
                ∙ deletes_of_lem plan.delete deletes listed;
          })
          h2
