-- ===== src/Spec/Reconcile/Convert/Read.antt =====
-- How the files of Spec Hub are read back (src/lib/postman/spec-file-reconcile.ts,
-- cloudMembersToDefinitionBundle).
use postman_bootstrap_action.Base.{
  ℕ, Option, some, List, [], ◌∷◌, Text, codes, length, ◌≡◌, sym, ap, subst, ◌∙◌, inl, inr,
  Option-cases, arith,
}
use postman_bootstrap_action.Base.Contract.{ok, >>=-eq-ok}
use postman_bootstrap_action.Spec.Bundle.{
  DefinitionFile, DefinitionFileRole, DefinitionFormat, root, dependency,
  assert_valid_bundle_relative_path, decode_file, create_definition_file,
}
use postman_bootstrap_action.Spec.Bundle.Paths.{valid_nfc}
use postman_bootstrap_action.Spec.Reconcile.{
  cloud_role_to_definition_role, is_root_type, is_default_type,
}
use postman_bootstrap_action.Spec.Reconcile.Convert.{CloudMember, role_or_error, member_files}

abbrev type_name : DefinitionFileRole → Text
type_name root = codes "ROOT"
type_name dependency = codes "DEFAULT"

cloud_role-type_name :
    (t : Text) (role : DefinitionFileRole)
    → cloud_role_to_definition_role t ≡ some role
    → t ≡ type_name role
unfolding cloud_role_to_definition_role is_root_type is_default_type
cloud_role-type_name t root h = ground arith
cloud_role-type_name t dependency h = ground arith

module _ (nfc to_lower : Text → Text) (decode : List ℕ → Option Text) (encode : Text → List ℕ)
    (sha256_hex : List ℕ → Text)
    (bundle_digest : Text → DefinitionFormat → List DefinitionFile → Text) where
  -- A file is the member's: its path, which is normalised by either function that tests it, its type,
  -- and its content.
  pub record IsRead (m : CloudMember) (f : DefinitionFile) : Type 0 where
    pub path : f.path ≡ nfc (nfc m.path)
    pub role : m.type ≡ type_name f.role
    pub content : decode (encode m.content) ≡ some f.content
    pub byte_length : f.byte_length ≡ length (encode m.content)
    pub sha256 : f.sha256 ≡ sha256_hex (encode m.content)

  -- The files are the members', one each and in their order.
  abbrev pub AreRead : List CloudMember → List DefinitionFile → Type 0
  AreRead [] [] = Unit
  AreRead (m ∷ ms) (f ∷ fs) = IsRead m f × AreRead ms fs
  AreRead _ _ = ⊥

  decode_file-parts :
      (key : Text) (role : DefinitionFileRole) (bytes : List ℕ) (f : DefinitionFile)
      → decode_file nfc to_lower decode sha256_hex key role bytes ≡ ok f
      → (f.path ≡ key)
        × ((f.role ≡ role)
            × ((decode bytes ≡ some f.content)
                × ((f.byte_length ≡ length bytes) × (f.sha256 ≡ sha256_hex bytes))))
  unfolding decode_file
  decode_file-parts key role bytes f h = elim (Option-cases (decode bytes)) [
    | inl malformed ↦ absurd (ground arith)
    | inr (text, decoded) ↦ ground arith
  ]

  role_or_error-type_name :
      (t : Text) (role : DefinitionFileRole)
      → role_or_error nfc to_lower decode encode sha256_hex bundle_digest
          (cloud_role_to_definition_role t)
        ≡ ok role
      → t ≡ type_name role
  role_or_error-type_name t role h = elim (Option-cases (cloud_role_to_definition_role t)) [
    | inl unknown ↦ absurd (ground arith)
    | inr (r, given) ↦ cloud_role-type_name t role (ground arith)
  ]

  create-IsRead :
      (m : CloudMember) (key : Text) (role : DefinitionFileRole) (f : DefinitionFile)
      → key ≡ nfc m.path
      → m.type ≡ type_name role
      → create_definition_file nfc to_lower decode sha256_hex key role (encode m.content) ≡ ok f
      → IsRead m f
  unfolding create_definition_file
  create-IsRead m key role f normal typed h =
      let (again, valid, made) =
        >>=-eq-ok (assert_valid_bundle_relative_path nfc to_lower key) _ h in
      let (path, (same, (decoded, (size, hash)))) =
        decode_file-parts again role (encode m.content) f made in
      record {
        path = path ∙ (valid_nfc nfc to_lower key again valid ∙ ap nfc normal);
        role = typed ∙ ap type_name (sym same);
        content = decoded;
        byte_length = size;
        sha256 = hash;
      }

  pub member_files-AreRead :
      (members : List CloudMember) (files : List DefinitionFile) (root_path : Option Text)
      → member_files nfc to_lower decode encode sha256_hex bundle_digest members
        ≡ ok (files, root_path)
      → AreRead members files
  unfolding member_files
  member_files-AreRead [] files root_path h =
      let empty : [] ≡ files = ground arith in subst (AreRead []) empty tt
  member_files-AreRead (m ∷ ms) files root_path h =
      let (role, typed, h1) =
        >>=-eq-ok
          (role_or_error nfc to_lower decode encode sha256_hex bundle_digest
            (cloud_role_to_definition_role m.type))
          _ h in
      let (key, valid, h2) =
        >>=-eq-ok (assert_valid_bundle_relative_path nfc to_lower m.path) _ h1 in
      let (f, made, h3) =
        >>=-eq-ok
          (create_definition_file nfc to_lower decode sha256_hex key role (encode m.content)) _
          h2 in
      let ((later, later_root), rest, h4) =
        >>=-eq-ok (member_files nfc to_lower decode encode sha256_hex bundle_digest ms) _ h3 in
      let whole : f ∷ later ≡ files = ground arith in
      subst (AreRead (m ∷ ms)) whole (
        create-IsRead m key role f (valid_nfc nfc to_lower m.path key valid)
            (role_or_error-type_name m.type role typed) made,
        member_files-AreRead ms later later_root rest,
      )
