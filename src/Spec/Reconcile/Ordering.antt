-- ===== src/Spec/Reconcile/Ordering.antt =====
-- src/lib/postman/spec-file-reconcile.ts, orderPerFileReconcileOps: in which order the operations of a
-- plan are carried out one by one.
pub mod Laws
pub mod Carried
use postman_bootstrap_action.Base.{
  Bool, true, false, Option, none, some, List, [], ◌∷◌, ◌++◌, map, Text, Text-discrete, ◌===◌,
  or_else, if◌then◌else◌,
}
use postman_bootstrap_action.Base.Contract.{Result, ok, err, ◌>>=◌}
use postman_bootstrap_action.Base.Sorting.{sort_by}
use postman_bootstrap_action.Spec.Bundle.{assert_valid_bundle_relative_path}
use postman_bootstrap_action.Spec.Reconcile.{
  CloudSpecFileMeta, CreateEntry, UpdateEntry, SpecFileReconcilePlan, is_root_type,
}

pub data PerFileReconcileOp : Type 0 where
  create_op : (path content : Text) → PerFileReconcileOp
  update_op : (path id content : Text) → PerFileReconcileOp
  delete_op : (path id : Text) → PerFileReconcileOp

abbrev pub op_path : PerFileReconcileOp → Text
op_path (create_op path content) = path
op_path (update_op path id content) = path
op_path (delete_op path id) = path

-- `cloudById.get(id)`: a later file with the same identifier wins.
unfoldable pub find_by_id : List CloudSpecFileMeta → Text → Option CloudSpecFileMeta
find_by_id [] id = none
find_by_id (m ∷ ms) id = or_else (find_by_id ms id) (if m.id === id then some m else none)

unfoldable pub is_root_meta : Option CloudSpecFileMeta → Bool
is_root_meta none = false
is_root_meta (some m) = is_root_type m.type

unfoldable pub creates_of : List CreateEntry → List PerFileReconcileOp
creates_of = map (λ (e : CreateEntry). create_op e.path e.content)

-- `nonRootUpserts` and `rootUpdate`
abbrev pub Updates : Type 0
Updates = List PerFileReconcileOp × Option PerFileReconcileOp

-- A round of the loop over the updates, and the rounds behind it: the last update of a root is kept.
unfoldable pub place : Bool → PerFileReconcileOp → Updates → Updates
place true op (others, last) = (others, or_else last (some op))
place false op (others, last) = (op ∷ others, last)

abbrev pub at_end : Option PerFileReconcileOp → List PerFileReconcileOp
at_end none = []
at_end (some op) = op ∷ []

module _ (nfc to_lower : Text → Text) (cloud : List CloudSpecFileMeta) where
  unfoldable pub path_for : Text → Result Text
  path_for id = elim (find_by_id cloud id) [
    | none ↦ ok id
    | some m ↦ assert_valid_bundle_relative_path nfc to_lower m.path
  ]

  unfoldable pub place_updates : List UpdateEntry → Result Updates
  place_updates [] = ok ([], none)
  place_updates (u ∷ us) = do
    path ← path_for u.id
    rest ← place_updates us
    ok (place (is_root_meta (find_by_id cloud u.id)) (update_op path u.id u.content) rest)

  unfoldable pub deletes_of : List Text → Result (List PerFileReconcileOp)
  deletes_of [] = ok []
  deletes_of (id ∷ ids) = do
    path ← path_for id
    rest ← deletes_of ids
    ok (delete_op path id ∷ rest)

  unfoldable pub order_per_file_reconcile_ops :
      SpecFileReconcilePlan → Result (List PerFileReconcileOp)
  order_per_file_reconcile_ops plan = do
    updates ← place_updates plan.update
    deletes ← deletes_of plan.delete
    ok (
        sort_by op_path (creates_of plan.create ++ updates.0)
        ++ (at_end updates.1 ++ sort_by op_path deletes))
