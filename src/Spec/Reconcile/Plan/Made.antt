-- ===== src/Spec/Reconcile/Plan/Made.antt =====
-- A plan that was made, by what is in its lists (src/lib/postman/spec-file-reconcile.ts).
use postman_bootstrap_action.Base.{
  Bool, false, Option, List, [], ◌∷◌, map, Text, ◌===◌, any, ◌≡◌, refl, sym, subst, ◌∙◌, arith,
}
use postman_bootstrap_action.Base.Contract.{ok, >>=-eq-ok, Ensures-ok}
use postman_bootstrap_action.Base.Sorting.{sort_by, any-sort_by}
use postman_bootstrap_action.Spec.Bundle.{
  DefinitionFile, DefinitionBundle, has_path, case_fold_path_key, assert_no_path_collisions,
}
use postman_bootstrap_action.Spec.Bundle.Paths.{
  path_keys, path_key, assert_no_path_collisions-AreDistinct,
}
use postman_bootstrap_action.Spec.Reconcile.{
  CloudSpecFileMeta, CreateEntry, UpdateEntry, SpecFileReconcilePlan,
  assert_no_cloud_path_collisions,
}
use postman_bootstrap_action.Spec.Reconcile.Plan.{
  Upserts, upserts, cloud_by_path, stale, plan_spec_file_reconcile,
}
use postman_bootstrap_action.Base.Finding.{AreDistinct}
use postman_bootstrap_action.Spec.Reconcile.Plan.Parts.{
  creates_with, updates_with, upserts_with, is_unread, upserts-is_unread, keyed,
  cloud_by_path-keyed, stale_with, stale_lem,
}

pub AreDistinct-map : (g : Text → Text) (ks : List Text) → AreDistinct (map g ks) → AreDistinct ks
AreDistinct-map g [] d = tt
AreDistinct-map g (k ∷ ks) d = (unseen k ks d.0, AreDistinct-map g ks d.1)
  where
    unseen :
        (k : Text) (ks : List Text)
        → any (λ j. j === g k) (map g ks) ≡ false
        → any (λ j. j === k) ks ≡ false
    unseen k [] h = refl
    unseen k (j ∷ js) h = ground (arith, unseen k js (ground arith))

module _ (nfc to_lower : Text → Text) (content_by_id : Text → Option Text)
    (cloud : List CloudSpecFileMeta) (target : DefinitionBundle) where
  pub record IsMade (plan : SpecFileReconcilePlan) : Type 0 where
    pub created :
        (R : Text → Text → Bool)
        → any (λ (e : CreateEntry). R e.path e.content) plan.create
          ≡ any (creates_with content_by_id R (keyed nfc to_lower cloud)) target.files
    pub updated :
        (R : Text → Text → Bool)
        → any (λ (u : UpdateEntry). R u.id u.content) plan.update
          ≡ any (updates_with content_by_id R (keyed nfc to_lower cloud)) target.files
    pub deleted :
        (R : Text → Bool)
        → any R plan.delete ≡ any (stale_with nfc to_lower (λ p. has_path p target.files) R) cloud
    pub read : any (is_unread content_by_id (keyed nfc to_lower cloud)) target.files ≡ false
    pub paths : AreDistinct (map (λ (m : CloudSpecFileMeta). nfc m.path) cloud)

  abbrev sorted : List DefinitionFile
  sorted = sort_by (λ (f : DefinitionFile). f.path) target.files

  abbrev sorted_cloud : List CloudSpecFileMeta
  sorted_cloud = sort_by (λ (m : CloudSpecFileMeta). m.path) cloud

  cloud_paths :
      (ms : List CloudSpecFileMeta)
      → AreDistinct (path_keys nfc to_lower (map (λ (m : CloudSpecFileMeta). m.path) ms))
      → AreDistinct (map (λ (m : CloudSpecFileMeta). nfc m.path) ms)
  unfolding case_fold_path_key
  cloud_paths [] d = tt
  cloud_paths (m ∷ ms) d = (unseen m ms d.0, cloud_paths ms d.1)
    where
      unseen :
          (m : CloudSpecFileMeta) (ms : List CloudSpecFileMeta)
          → any
              (λ j. j === path_key nfc to_lower m.path)
              (path_keys nfc to_lower (map (λ (n : CloudSpecFileMeta). n.path) ms))
            ≡ false
          → any (λ j. j === nfc m.path) (map (λ (n : CloudSpecFileMeta). nfc n.path) ms) ≡ false
      unseen m [] h = refl
      unseen m (n ∷ ns) h = ground (arith, unseen m ns (ground arith))

  IsMade-lists :
      (ups : Upserts) (gone : List Text)
      → upserts content_by_id (keyed nfc to_lower cloud) sorted ≡ ok ups
      → stale nfc to_lower (λ p. has_path p target.files) sorted_cloud ≡ ok gone
      → AreDistinct (map (λ (m : CloudSpecFileMeta). nfc m.path) cloud)
      → IsMade (record { create = ups.0; update = ups.1; delete = gone })
  IsMade-lists ups gone upserted staled paths =
      let by_path = keyed nfc to_lower cloud in
      record {
        created = λ R.
            (upserts_with content_by_id R by_path sorted ups upserted).0
            ∙ any-sort_by (λ (f : DefinitionFile). f.path) (creates_with content_by_id R by_path)
                target.files;
        updated = λ R.
            (upserts_with content_by_id R by_path sorted ups upserted).1
            ∙ any-sort_by (λ (f : DefinitionFile). f.path) (updates_with content_by_id R by_path)
                target.files;
        deleted = λ R.
            stale_lem nfc to_lower (λ p. has_path p target.files) R sorted_cloud gone staled
            ∙ any-sort_by (λ (m : CloudSpecFileMeta). m.path)
                (stale_with nfc to_lower (λ p. has_path p target.files) R) cloud;
        read =
            sym (
              any-sort_by (λ (f : DefinitionFile). f.path) (is_unread content_by_id by_path)
                target.files)
            ∙ upserts-is_unread content_by_id by_path sorted ups upserted;
        paths = paths;
      }

  pub plan_spec_file_reconcile-IsMade :
      (plan : SpecFileReconcilePlan)
      → plan_spec_file_reconcile nfc to_lower content_by_id cloud target ≡ ok plan
      → IsMade plan
  unfolding plan_spec_file_reconcile assert_no_cloud_path_collisions assert_no_path_collisions
  plan_spec_file_reconcile-IsMade plan h =
      let (_, apart, h1) = >>=-eq-ok (assert_no_cloud_path_collisions nfc to_lower cloud) _ h in
      let (by_path, keys, h2) = >>=-eq-ok (cloud_by_path nfc to_lower cloud) _ h1 in
      let (ups, upserted, h3) = >>=-eq-ok (upserts content_by_id by_path sorted) _ h2 in
      let (gone, staled, h4) =
        >>=-eq-ok (stale nfc to_lower (λ p. has_path p target.files) sorted_cloud) _ h3 in
      let same_keys : by_path ≡ keyed nfc to_lower cloud =
        cloud_by_path-keyed nfc to_lower cloud by_path keys in
      let made : upserts content_by_id (keyed nfc to_lower cloud) sorted ≡ ok ups =
        subst (λ k. upserts content_by_id k sorted ≡ ok ups) same_keys upserted in
      let distinct = cloud_paths cloud (
        assert_no_path_collisions-AreDistinct nfc to_lower
          (map (λ (m : CloudSpecFileMeta). m.path) cloud) apart) in
      Ensures-ok IsMade (IsMade-lists ups gone made staled distinct) h4
