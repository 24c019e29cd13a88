-- ===== src/Spec/Reconcile/Plan.antt =====
-- src/lib/postman/spec-file-reconcile.ts, planSpecFileReconcile: what to create, update and delete so
-- that the files of Spec Hub are those of the target.
pub mod Parts
pub mod Made
pub mod Rounds
pub mod Laws
use postman_bootstrap_action.Base.{
  Bool, true, false, Option, none, some, List, [], ◌∷◌, ◌++◌, map, Text, Text-discrete, ◌===◌, any,
  or_else, if◌then◌else◌,
}
use postman_bootstrap_action.Base.Contract.{
  Result, ok, err, ◌>>=◌, spec_root_path_change_unsupported, definition_closure_incomplete,
}
use postman_bootstrap_action.Base.Sorting.{sort_by}
use postman_bootstrap_action.Spec.Bundle.{
  DefinitionFile, DefinitionBundle, is_root, has_path, assert_valid_bundle_relative_path,
}
use postman_bootstrap_action.Spec.Reconcile.{
  CloudSpecFileMeta, CreateEntry, UpdateEntry, SpecFileReconcilePlan, is_root_type,
  assert_no_cloud_path_collisions,
}

-- `cloudByPath`: the entries in the order they are set. A later one for the same path wins.
abbrev pub CloudByPath : Type 0
CloudByPath = List (Text × CloudSpecFileMeta)

unfoldable pub lookup : CloudByPath → Text → Option CloudSpecFileMeta
lookup [] p = none
lookup ((q, m) ∷ rest) p = or_else (lookup rest p) (if q === p then some m else none)

abbrev pub Upserts : Type 0
Upserts = List CreateEntry × List UpdateEntry

-- `cloudContentById` is a function.
module _ (content_by_id : Text → Option Text) where
  -- What a file of the target that is in the cloud adds.
  unfoldable pub upsert_existing : DefinitionFile → Text → Option Text → Result Upserts
  upsert_existing f id none = err definition_closure_incomplete
  upsert_existing f id (some current) =
      ok ([], (if current === f.content then [] else record { id = id; content = f.content } ∷ []))

  unfoldable pub upsert_new : DefinitionFile → Result Upserts
  upsert_new f =
      if is_root f.role
      then err spec_root_path_change_unsupported
      else ok (record { path = f.path; content = f.content } ∷ [], [])

  -- What the round of one file pushes.
  unfoldable pub upsert : CloudByPath → DefinitionFile → Result Upserts
  upsert by_path f = elim (lookup by_path f.path) [
    | none ↦ upsert_new f
    | some existing ↦ upsert_existing f existing.id (content_by_id existing.id)
  ]

  unfoldable pub upserts : CloudByPath → List DefinitionFile → Result Upserts
  upserts by_path [] = ok ([], [])
  upserts by_path (f ∷ fs) = do
    one ← upsert by_path f
    rest ← upserts by_path fs
    ok (one.0 ++ rest.0, one.1 ++ rest.1)

module _ (nfc to_lower : Text → Text) where
  unfoldable pub cloud_by_path : List CloudSpecFileMeta → Result CloudByPath
  cloud_by_path [] = ok []
  cloud_by_path (m ∷ ms) = do
    p ← assert_valid_bundle_relative_path nfc to_lower m.path
    rest ← cloud_by_path ms
    ok ((p, m) ∷ rest)

  unfoldable pub stale_one : (Text → Bool) → CloudSpecFileMeta → Text → Result (List Text)
  stale_one in_target m p =
      if in_target p
      then ok []
      else if is_root_type m.type
      then err spec_root_path_change_unsupported
      else ok (m.id ∷ [])

  -- The identifiers to delete: `in_target` is `targetPaths.has`.
  unfoldable pub stale : (Text → Bool) → List CloudSpecFileMeta → Result (List Text)
  stale in_target [] = ok []
  stale in_target (m ∷ ms) = do
    p ← assert_valid_bundle_relative_path nfc to_lower m.path
    one ← stale_one in_target m p
    rest ← stale in_target ms
    ok (one ++ rest)

  module _ (content_by_id : Text → Option Text) where
    unfoldable pub plan_spec_file_reconcile :
        List CloudSpecFileMeta → DefinitionBundle → Result SpecFileReconcilePlan
    plan_spec_file_reconcile cloud target = do
      _ ← assert_no_cloud_path_collisions nfc to_lower cloud
      by_path ← cloud_by_path cloud
      ups ← upserts content_by_id by_path (sort_by (λ (f : DefinitionFile). f.path) target.files)
      gone ←
          stale (λ p. has_path p target.files) (sort_by (λ (m : CloudSpecFileMeta). m.path) cloud)
      ok (record { create = ups.0; update = ups.1; delete = gone })
