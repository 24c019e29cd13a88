-- ===== src/Spec/Reconcile/Convert.antt =====
-- src/lib/postman/spec-file-reconcile.ts: bundles of the files that Spec Hub has, and snapshots.
pub mod Read
pub mod Laws
use postman_bootstrap_action.Base.{
  ℕ, Option, none, some, List, [], ◌∷◌, map, Text, or_else, if◌then◌else◌,
}
use postman_bootstrap_action.Base.Contract.{Result, ok, err, ◌>>=◌, definition_inventory_invalid}
use postman_bootstrap_action.Base.Sorting.{sort_by}
use postman_bootstrap_action.Spec.Bundle.{
  DefinitionFile, DefinitionFileRole, DefinitionFormat, DefinitionBundle, full, is_root,
  assert_valid_bundle_relative_path, assert_no_path_collisions, create_definition_file,
  create_definition_bundle,
}
use postman_bootstrap_action.Spec.Reconcile.{cloud_role_to_definition_role}

pub record CloudMember : Type 0 where
  pub path : Text
  pub type : Text
  pub content : Text

pub record SpecBundleSnapshot : Type 0 where
  pub root_path : Text
  pub format : DefinitionFormat
  pub files : List DefinitionFile
  pub digest : Text

unfoldable pub definition_bundle_to_snapshot : DefinitionBundle → SpecBundleSnapshot
definition_bundle_to_snapshot bundle = record {
  root_path = bundle.root_path;
  format = bundle.format;
  files = sort_by (λ (f : DefinitionFile). f.path) bundle.files;
  digest = bundle.digest;
}

-- The runtime's texts and hashes, and the digest of an inventory.
module _ (nfc to_lower : Text → Text) (decode : List ℕ → Option Text) (encode : Text → List ℕ)
    (sha256_hex : List ℕ → Text)
    (bundle_digest : Text → DefinitionFormat → List DefinitionFile → Text) where
  abbrev create : Text → DefinitionFileRole → Text → Result DefinitionFile
  create path role content =
      create_definition_file nfc to_lower decode sha256_hex path role (encode content)

  abbrev pub role_or_error : Option DefinitionFileRole → Result DefinitionFileRole
  role_or_error none = err definition_inventory_invalid
  role_or_error (some role) = ok role

  -- The files of the members, and the path of the last root among them, if any.
  unfoldable pub member_files : List CloudMember → Result (List DefinitionFile × Option Text)
  member_files [] = ok ([], none)
  member_files (m ∷ ms) = do
    role ← role_or_error (cloud_role_to_definition_role m.type)
    path ← assert_valid_bundle_relative_path nfc to_lower m.path
    file ← create path role m.content
    rest ← member_files ms
    ok (file ∷ rest.0, or_else rest.1 (if is_root role then some path else none))

  abbrev pub bundle_at :
      DefinitionFormat → List DefinitionFile → Option Text → Result DefinitionBundle
  bundle_at format files none = err definition_inventory_invalid
  bundle_at format files (some root_path) =
      create_definition_bundle nfc to_lower bundle_digest root_path format full files

  unfoldable pub cloud_members_to_definition_bundle :
      DefinitionFormat → List CloudMember → Result DefinitionBundle
  cloud_members_to_definition_bundle format members = do
    _ ← assert_no_path_collisions nfc to_lower (map (λ (m : CloudMember). m.path) members)
    gathered ← member_files members
    bundle_at format gathered.0 gathered.1

  unfoldable pub snapshot_files : List DefinitionFile → Result (List DefinitionFile)
  snapshot_files [] = ok []
  snapshot_files (f ∷ fs) = do
    file ← create f.path f.role f.content
    rest ← snapshot_files fs
    ok (file ∷ rest)

  unfoldable pub snapshot_to_definition_bundle : SpecBundleSnapshot → Result DefinitionBundle
  snapshot_to_definition_bundle snapshot = do
    files ← snapshot_files snapshot.files
    create_definition_bundle nfc to_lower bundle_digest snapshot.root_path snapshot.format full
        files
