-- ===== src/Spec/Bundle/Inventory/Laws.antt =====
-- What an inventory that parses satisfies (src/lib/spec/definition-bundle.ts).
use postman_bootstrap_action.Base.{ℕ, true, Option, codes, List, [], ◌∷◌, map, Text, ◌≡◌, arith}
use postman_bootstrap_action.Base.Finding.{AreDistinct}
use postman_bootstrap_action.Base.Contract.{ok, >>=-eq-ok, Ensures-ok}
use postman_bootstrap_action.Base.Json.{Json, Items, Fields, get}
use postman_bootstrap_action.Spec.Bundle.Paths.{path_keys, assert_no_path_collisions-AreDistinct}
use postman_bootstrap_action.Spec.Bundle.{
  DefinitionFormat, DefinitionCompleteness, assert_valid_bundle_relative_path,
  assert_no_path_collisions,
}
use postman_bootstrap_action.Spec.Bundle.Inventory.{
  DefinitionInventoryFile, DefinitionInventory, inventory_path, are_ascending, roots_in,
  assert_ascending, assert_sole_root, check_files, parse_entries, required, a_record, a_text,
  items_of, is_version_one, of_kind, named_in, definition_formats, parse_completeness,
  parse_inventory_provider, build_inventory, Provider, parse_inventory,
  parse_definition_inventory_json,
}

-- The one root of the files, at the root path.
abbrev pub IsSoleRoot : Text → List DefinitionInventoryFile → Type 0
IsSoleRoot root_path [] = ⊥
IsSoleRoot root_path (f ∷ []) = f.path ≡ root_path
IsSoleRoot root_path (f ∷ (g ∷ fs)) = ⊥

ascending_ok :
    (files : List DefinitionInventoryFile)
    → assert_ascending files ≡ ok tt
    → are_ascending files ≡ true
unfolding assert_ascending
ascending_ok files h = ground arith

assert_sole_root-IsSoleRoot :
    (root_path : Text) (roots : List DefinitionInventoryFile)
    → assert_sole_root root_path roots ≡ ok tt
    → IsSoleRoot root_path roots
unfolding assert_sole_root
assert_sole_root-IsSoleRoot root_path [] h = absurd (ground arith)
assert_sole_root-IsSoleRoot root_path (f ∷ []) h = ground arith
assert_sole_root-IsSoleRoot root_path (f ∷ (g ∷ fs)) h = absurd (ground arith)

module _ (nfc to_lower : Text → Text) where
  pub record IsInventory (inventory : DefinitionInventory) : Type 0 where
    pub ascending : are_ascending inventory.files ≡ true
    pub distinct : AreDistinct (path_keys nfc to_lower (map inventory_path inventory.files))
    pub sole_root : IsSoleRoot inventory.root_path (roots_in inventory.files)

  module _ (json_parse : Text → Option Json) (natural : Text → Option ℕ) where
    build_inventory-IsInventory :
        (root_path : Text) (format : DefinitionFormat) (completeness : DefinitionCompleteness)
        (provider : Provider) (entries : Items) (inventory : DefinitionInventory)
        → build_inventory nfc to_lower json_parse natural root_path format completeness provider
            entries
          ≡ ok inventory
        → IsInventory inventory
    unfolding build_inventory check_files
    build_inventory-IsInventory root_path format completeness provider entries inventory h =
        let (files, _, h1) =
          >>=-eq-ok (parse_entries nfc to_lower json_parse natural entries) _ h in
        let (_, checked, h2) =
          >>=-eq-ok (check_files nfc to_lower json_parse natural root_path files) _ h1 in
        let (_, sorted, c1) = >>=-eq-ok (assert_ascending files) _ checked in
        let (_, apart, c2) =
          >>=-eq-ok (assert_no_path_collisions nfc to_lower (map inventory_path files)) _ c1 in
        Ensures-ok IsInventory
          (record {
            ascending = ascending_ok files sorted;
            distinct =
                assert_no_path_collisions-AreDistinct nfc to_lower (map inventory_path files) apart;
            sole_root = assert_sole_root-IsSoleRoot root_path (roots_in files) c2;
          })
          h2

    parse_inventory-IsInventory :
        (parsed : Fields) (inventory : DefinitionInventory)
        → parse_inventory nfc to_lower json_parse natural parsed ≡ ok inventory
        → IsInventory inventory
    unfolding parse_inventory
    parse_inventory-IsInventory parsed inventory h =
        let at : Text → Option Json = get parsed in
        let (_, _, h1) = >>=-eq-ok (required (is_version_one (at (codes "schemaVersion")))) _ h in
        let (raw, _, h2) = >>=-eq-ok (required (a_text (at (codes "root")))) _ h1 in
        let (root_path, _, h3) =
          >>=-eq-ok (assert_valid_bundle_relative_path nfc to_lower raw) _ h2 in
        let (format, _, h4) =
          >>=-eq-ok (required (named_in definition_formats (at (codes "format")))) _ h3 in
        let (completeness, _, h5) =
          >>=-eq-ok (required (parse_completeness (at (codes "completeness")))) _ h4 in
        let (provenance, _, h6) = >>=-eq-ok (required (a_record (at (codes "provenance")))) _ h5 in
        let (_, _, h7) = >>=-eq-ok (required (of_kind (get provenance (codes "kind")))) _ h6 in
        let (provider, _, h8) =
          >>=-eq-ok (required (parse_inventory_provider (get provenance (codes "provider")))) _
            h7 in
        let (entries, _, h9) = >>=-eq-ok (required (items_of (at (codes "files")))) _ h8 in
        build_inventory-IsInventory root_path format completeness provider entries inventory h9

    -- Whenever an inventory parses: its paths ascend strictly, by code units; no two of them are the
    -- same after Unicode normalisation and folding to lower case; and exactly one of its files is a
    -- root, whose path is the root of the inventory.
    pub parse_definition_inventory_json-IsInventory :
        (raw : Text) (inventory : DefinitionInventory)
        → parse_definition_inventory_json nfc to_lower json_parse natural raw ≡ ok inventory
        → IsInventory inventory
    unfolding parse_definition_inventory_json
    parse_definition_inventory_json-IsInventory raw inventory h =
        let (parsed, _, h1) = >>=-eq-ok (required (a_record (json_parse raw))) _ h in
        parse_inventory-IsInventory parsed inventory h1
