-- ===== src/Spec/Bundle/Laws.antt =====
-- What a definition bundle satisfies (src/lib/spec/definition-bundle.ts, createDefinitionBundle).
use postman_bootstrap_action.Base.{
  ℕ, ◌+◌, ◌≤◌, true, List, [], ◌∷◌, ◌++◌, map, Text, length, if◌then◌else◌, ◌≡◌, sym, subst, ◌∙◌,
  arith, append_assoc, append-nil,
}
use postman_bootstrap_action.Base.Contract.{ok, >>=-eq-ok}
use postman_bootstrap_action.Base.Finding.{AreDistinct}
use postman_bootstrap_action.Spec.Bundle.{
  DefinitionFile, DefinitionBundle, DefinitionFormat, DefinitionCompleteness, max_files,
  max_total_bytes, is_root, assert_count, gather, root_at, seal, create_definition_bundle,
  assert_valid_bundle_relative_path, assert_no_path_collisions,
}
use postman_bootstrap_action.Spec.Bundle.Paths.{path_keys, assert_no_path_collisions-AreDistinct}

abbrev pub paths_of : List DefinitionFile → List Text
paths_of = map (λ (f : DefinitionFile). f.path)

abbrev pub roots_of : List DefinitionFile → ℕ
roots_of [] = 0
roots_of (f ∷ fs) = if is_root f.role then roots_of fs + 1 else roots_of fs

abbrev pub bytes_of : List DefinitionFile → ℕ
bytes_of [] = 0
bytes_of (f ∷ fs) = f.byte_length + bytes_of fs

gather_cons :
    (kept : List DefinitionFile) (roots bytes : ℕ) (f : DefinitionFile)
    (files : List DefinitionFile) {r : List DefinitionFile × ℕ}
    → gather kept roots bytes (f ∷ files) ≡ ok r
    → (bytes + f.byte_length ≤ max_total_bytes)
      × (gather
            (kept ++ f ∷ [])
            (if is_root f.role then roots + 1 else roots)
            (bytes + f.byte_length)
            files
          ≡ ok r)
unfolding gather
gather_cons kept roots bytes f files h = ground arith

-- The loop keeps every file, in order, counts the roots and adds up the bytes.
gather_ok :
    (kept : List DefinitionFile) (roots bytes : ℕ) (files out : List DefinitionFile) (n : ℕ)
    → bytes ≤ max_total_bytes
    → gather kept roots bytes files ≡ ok (out, n)
    → (out ≡ kept ++ files)
      × ((n ≡ roots + roots_of files) × (bytes + bytes_of files ≤ max_total_bytes))
unfolding gather
gather_ok kept roots bytes [] out n b h = ground (arith, append-nil kept)
gather_ok kept roots bytes (f ∷ files) out n b h =
    let (fits, rest) = gather_cons kept roots bytes f files h in
    let (same, (counted, total)) =
      gather_ok (kept ++ f ∷ []) (if is_root f.role then roots + 1 else roots)
        (bytes + f.byte_length) files out n fits rest in
    (same ∙ append_assoc kept (f ∷ []) files, (ground arith, omega arith))

assert_count_ok :
    (files : List DefinitionFile) → assert_count files ≡ ok tt → length files ≤ max_files
unfolding assert_count
assert_count_ok files h = ground arith

module _ (bundle_digest : Text → DefinitionFormat → List DefinitionFile → Text) where
  seal_ok :
      (key : Text) (format : DefinitionFormat) (completeness : DefinitionCompleteness)
      (kept : List DefinitionFile) (n : ℕ) (bundle : DefinitionBundle)
      → seal bundle_digest key format completeness (kept, n) ≡ ok bundle
      → (bundle.files ≡ kept) × ((n ≡ 1) × ((root_at key kept ≡ true) × (bundle.root_path ≡ key)))
  unfolding seal
  seal_ok key format completeness kept n bundle h = ground arith

-- The bundle has at most 101 files, of at most 25 MiB together; one of them, and only one, is a root,
-- and it stands at the root path; and no two of their paths have the same key.
module _ (nfc to_lower : Text → Text) where
  pub record IsBundle (bundle : DefinitionBundle) : Type 0 where
    pub few : length bundle.files ≤ max_files
    pub light : bytes_of bundle.files ≤ max_total_bytes
    pub one_root : roots_of bundle.files ≡ 1
    pub root_there : root_at bundle.root_path bundle.files ≡ true
    pub distinct : AreDistinct (path_keys nfc to_lower (paths_of bundle.files))

  module _ (bundle_digest : Text → DefinitionFormat → List DefinitionFile → Text) where
    -- Whenever a bundle is made of a list of files, it holds these files in their order, at most 101 of
    -- them and at most 25 MiB together; exactly one is a root, and it stands at the root path; and no two
    -- paths are the same after Unicode normalisation and folding to lower case.
    pub create_definition_bundle-IsBundle :
        (root_path : Text) (format : DefinitionFormat) (completeness : DefinitionCompleteness)
        (files : List DefinitionFile) (bundle : DefinitionBundle)
        → create_definition_bundle nfc to_lower bundle_digest root_path format completeness files
          ≡ ok bundle
        → (bundle.files ≡ files) × IsBundle bundle
    unfolding create_definition_bundle
    create_definition_bundle-IsBundle root_path format completeness files bundle h =
        let (key, _, h1) =
          >>=-eq-ok (assert_valid_bundle_relative_path nfc to_lower root_path) _ h in
        let (_, counted, h2) = >>=-eq-ok (assert_count files) _ h1 in
        let (_, apart, h3) =
          >>=-eq-ok (assert_no_path_collisions nfc to_lower (paths_of files)) _ h2 in
        let ((kept, n), gathered, h4) = >>=-eq-ok (gather [] 0 0 files) _ h3 in
        let (same, (roots, total)) = gather_ok [] 0 0 files kept n (omega arith) gathered in
        let (held, (single, (there, at_key))) =
          seal_ok bundle_digest key format completeness kept n bundle h4 in
        let whole : bundle.files ≡ files = held ∙ same in
        (
          whole,
          record {
            few = subst (λ fs. length fs ≤ max_files) (sym whole) (assert_count_ok files counted);
            light = subst (λ fs. bytes_of fs ≤ max_total_bytes) (sym whole) (omega arith);
            one_root = subst (λ fs. roots_of fs ≡ 1) (sym whole) (omega arith);
            root_there =
                subst (λ p. root_at p bundle.files ≡ true) (sym at_key)
                  (subst (λ fs. root_at key fs ≡ true) (sym held) there);
            distinct =
                subst (λ fs. AreDistinct (path_keys nfc to_lower (paths_of fs))) (sym whole)
                  (assert_no_path_collisions-AreDistinct nfc to_lower (paths_of files) apart);
          },
        )
