-- ===== src/Spec/Reconcile/Ordering/Carried.antt =====
-- Which operations of a plan are carried out one by one (src/lib/postman/spec-file-reconcile.ts,
-- orderPerFileReconcileOps).
use postman_bootstrap_action.Base.{
  Bool, true, false, ◌&&◌, ◌||◌, Option, none, some, List, [], ◌∷◌, ◌++◌, Text, ◌===◌, any,
  any-append, ◌≡◌, refl, ap₂, ◌∙◌, arith,
}
use postman_bootstrap_action.Base.Contract.{ok, >>=-eq-ok, Ensures-ok}
use postman_bootstrap_action.Base.Sorting.{sort_by, any-sort_by}
use postman_bootstrap_action.Spec.Reconcile.{
  CloudSpecFileMeta, CreateEntry, UpdateEntry, SpecFileReconcilePlan,
}
use postman_bootstrap_action.Spec.Reconcile.Ordering.{
  PerFileReconcileOp, create_op, update_op, delete_op, op_path, find_by_id, is_root_meta,
  creates_of, Updates, place, at_end, path_for, place_updates, deletes_of,
  order_per_file_reconcile_ops,
}

abbrev pub creates : Text → Text → PerFileReconcileOp → Bool
creates p c (create_op path content) = (path === p) && (content === c)
creates p c _ = false

abbrev pub deletes : Text → PerFileReconcileOp → Bool
deletes i (delete_op path id) = id === i
deletes i _ = false

creates_of-creates :
    (p c : Text) (es : List CreateEntry)
    → any (creates p c) (creates_of es) ≡ any (λ e. (e.path === p) && (e.content === c)) es
unfolding creates_of
creates_of-creates p c [] = refl
creates_of-creates p c (e ∷ es) = ground (arith, creates_of-creates p c es)

creates_of-deletes : (i : Text) (es : List CreateEntry) → any (deletes i) (creates_of es) ≡ false
unfolding creates_of
creates_of-deletes i [] = refl
creates_of-deletes i (e ∷ es) = creates_of-deletes i es

module _ (nfc to_lower : Text → Text) (cloud : List CloudSpecFileMeta) where
  deletes_of-deletes :
      (i : Text) (ids : List Text) (ops : List PerFileReconcileOp)
      → deletes_of nfc to_lower cloud ids ≡ ok ops
      → any (deletes i) ops ≡ any (λ id. id === i) ids
  unfolding deletes_of
  deletes_of-deletes i [] ops h = ground arith
  deletes_of-deletes i (id ∷ ids) ops h =
      let (path, _, h1) = >>=-eq-ok (path_for nfc to_lower cloud id) _ h in
      let (rest, others, h2) = >>=-eq-ok (deletes_of nfc to_lower cloud ids) _ h1 in
      let ih = deletes_of-deletes i ids rest others in ground arith

  deletes_of-creates :
      (p c : Text) (ids : List Text) (ops : List PerFileReconcileOp)
      → deletes_of nfc to_lower cloud ids ≡ ok ops
      → any (creates p c) ops ≡ false
  unfolding deletes_of
  deletes_of-creates p c [] ops h = ground arith
  deletes_of-creates p c (id ∷ ids) ops h =
      let (path, _, h1) = >>=-eq-ok (path_for nfc to_lower cloud id) _ h in
      let (rest, others, h2) = >>=-eq-ok (deletes_of nfc to_lower cloud ids) _ h1 in
      let ih = deletes_of-creates p c ids rest others in ground arith

  -- No update is placed among them that passes a test that no update passes.
  abbrev HasNone : (PerFileReconcileOp → Bool) → Updates → Type 0
  HasNone Q r = (any Q r.0 ≡ false) × (any Q (at_end r.1) ≡ false)

  place-HasNone :
      (Q : PerFileReconcileOp → Bool) (b : Bool) (op : PerFileReconcileOp) (rest : Updates)
      → Q op ≡ false
      → HasNone Q rest
      → HasNone Q (place b op rest)
  unfolding place
  place-HasNone Q true op (others, none) q h = (h.0, ground arith)
  place-HasNone Q true op (others, some last) q h = h
  place-HasNone Q false op (others, last) q h = (ground arith, h.1)

  place_updates-HasNone :
      (Q : PerFileReconcileOp → Bool)
      → ((path id content : Text) → Q (update_op path id content) ≡ false)
      → (us : List UpdateEntry) (r : Updates) → place_updates nfc to_lower cloud us ≡ ok r
      → HasNone Q r
  unfolding place_updates
  place_updates-HasNone Q q [] r h = Ensures-ok (HasNone Q) (refl, refl) h
  place_updates-HasNone Q q (u ∷ us) r h =
      let (path, _, h1) = >>=-eq-ok (path_for nfc to_lower cloud u.id) _ h in
      let (rest, others, h2) = >>=-eq-ok (place_updates nfc to_lower cloud us) _ h1 in
      Ensures-ok (HasNone Q)
        (place-HasNone Q (is_root_meta (find_by_id cloud u.id)) (update_op path u.id u.content) rest
          (q path u.id u.content) (place_updates-HasNone Q q us rest others))
        h2

  -- The parts of the sequence, by any test.
  any-parts :
      (Q : PerFileReconcileOp → Bool) (cs us ds : List PerFileReconcileOp)
      (last : Option PerFileReconcileOp)
      → any Q us ≡ false
      → any Q (at_end last) ≡ false
      → any Q (sort_by op_path (cs ++ us) ++ (at_end last ++ sort_by op_path ds))
        ≡ (any Q cs || any Q ds)
  any-parts Q cs us ds last hu hl =
      let e1 = any-append Q (sort_by op_path (cs ++ us)) (at_end last ++ sort_by op_path ds) in
      let e2 = any-append Q (at_end last) (sort_by op_path ds) in
      let e3 = any-sort_by op_path Q (cs ++ us) in
      let e4 = any-append Q cs us in let e5 = any-sort_by op_path Q ds in ground arith

  -- The operations create exactly what the plan creates and delete exactly what it deletes: a file with
  -- this path and content is created by one of them exactly if it is in the plan, and likewise for the
  -- deletion of an identifier.
  pub order_per_file_reconcile_ops-carries :
      (plan : SpecFileReconcilePlan) (ops : List PerFileReconcileOp) (p c i : Text)
      → order_per_file_reconcile_ops nfc to_lower cloud plan ≡ ok ops
      → (any (creates p c) ops ≡ any (λ e. (e.path === p) && (e.content === c)) plan.create)
        × (any (deletes i) ops ≡ any (λ id. id === i) plan.delete)
  unfolding order_per_file_reconcile_ops
  order_per_file_reconcile_ops-carries plan ops p c i h =
      let (updates, placed, h1) = >>=-eq-ok (place_updates nfc to_lower cloud plan.update) _ h in
      let (gone, listed, h2) = >>=-eq-ok (deletes_of nfc to_lower cloud plan.delete) _ h1 in
      let (cu, cl) =
        place_updates-HasNone (creates p c) (λ _ _ _. refl) plan.update updates placed in
      let (du, dl) = place_updates-HasNone (deletes i) (λ _ _ _. refl) plan.update updates placed in
      Ensures-ok
        (λ ops'.
          (any (creates p c) ops' ≡ any (λ e. (e.path === p) && (e.content === c)) plan.create)
          × (any (deletes i) ops' ≡ any (λ id. id === i) plan.delete))
        (
          any-parts (creates p c) (creates_of plan.create) updates.0 gone updates.1 cu cl
              ∙ ap₂ ◌||◌ (creates_of-creates p c plan.create)
                  (deletes_of-creates p c plan.delete gone listed)
              ∙ or_false _,
          any-parts (deletes i) (creates_of plan.create) updates.0 gone updates.1 du dl
              ∙ ap₂ ◌||◌ (creates_of-deletes i plan.create)
                  (deletes_of-deletes i plan.delete gone listed),
        )
        h2
    where
      or_false : (b : Bool) → (b || false) ≡ b
      or_false true = refl
      or_false false = refl
