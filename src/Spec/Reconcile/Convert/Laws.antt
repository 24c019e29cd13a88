-- ===== src/Spec/Reconcile/Convert/Laws.antt =====
-- The bundles that are made of the files of Spec Hub (src/lib/postman/spec-file-reconcile.ts).
use postman_bootstrap_action.Base.{ℕ, Option, none, some, List, map, Text, ◌≡◌, sym, subst, arith}
use postman_bootstrap_action.Base.Contract.{ok, >>=-eq-ok}
use postman_bootstrap_action.Spec.Bundle.{
  DefinitionFile, DefinitionFormat, DefinitionBundle, full, assert_no_path_collisions,
}
use postman_bootstrap_action.Spec.Bundle.Laws.{IsBundle, create_definition_bundle-IsBundle}
use postman_bootstrap_action.Spec.Reconcile.Convert.Read.{AreRead, member_files-AreRead}
use postman_bootstrap_action.Spec.Reconcile.Convert.{
  CloudMember, member_files, bundle_at, cloud_members_to_definition_bundle,
}

module _ (nfc to_lower : Text → Text) (decode : List ℕ → Option Text) (encode : Text → List ℕ)
    (sha256_hex : List ℕ → Text)
    (bundle_digest : Text → DefinitionFormat → List DefinitionFile → Text) where
  bundle_at-IsBundle :
      (format : DefinitionFormat) (files : List DefinitionFile) (root_path : Option Text)
      (bundle : DefinitionBundle)
      → bundle_at nfc to_lower decode encode sha256_hex bundle_digest format files root_path
        ≡ ok bundle
      → (bundle.files ≡ files) × IsBundle nfc to_lower bundle
  bundle_at-IsBundle format files none bundle h = absurd (ground arith)
  bundle_at-IsBundle format files (some root_path) bundle h =
      create_definition_bundle-IsBundle nfc to_lower bundle_digest root_path format full files
        bundle h

  -- What is read back from Spec Hub is only taken for a bundle if it is one, and then it is what Spec
  -- Hub has: whenever members make a bundle, its files are theirs, one each and in their order, with
  -- the members' paths, normalised twice, the roles that their types name, their contents, encoded
  -- and decoded again, and the lengths and hashes of the encoded contents; and the bundle has at most
  -- 101 files of at most 25 MiB together, exactly one root, at the root path, and no two paths that
  -- are the same after normalisation and folding.
  pub cloud_members_to_definition_bundle-IsBundle :
      (format : DefinitionFormat) (members : List CloudMember) (bundle : DefinitionBundle)
      → cloud_members_to_definition_bundle nfc to_lower decode encode sha256_hex bundle_digest
          format members
        ≡ ok bundle
      → AreRead nfc to_lower decode encode sha256_hex bundle_digest members bundle.files
        × IsBundle nfc to_lower bundle
  unfolding cloud_members_to_definition_bundle
  cloud_members_to_definition_bundle-IsBundle format members bundle h =
      let (_, _, h1) =
        >>=-eq-ok
          (assert_no_path_collisions nfc to_lower (map (λ (m : CloudMember). m.path) members)) _
          h in
      let ((files, root_path), read, h2) =
        >>=-eq-ok (member_files nfc to_lower decode encode sha256_hex bundle_digest members) _ h1 in
      let (whole, sound) = bundle_at-IsBundle format files root_path bundle h2 in
      (
        subst (AreRead nfc to_lower decode encode sha256_hex bundle_digest members) (sym whole) (
            member_files-AreRead nfc to_lower decode encode sha256_hex bundle_digest members files
              root_path read),
        sound,
      )
