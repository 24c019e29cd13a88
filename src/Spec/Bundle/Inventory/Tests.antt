-- ===== src/Spec/Bundle/Inventory/Tests.antt =====
-- An inventory at a concrete input: one file, the root.
use postman_bootstrap_action.Base.{
  ℕ, false, Option, some, [], ◌∷◌, Text, codes, Text-discrete, ℕ_discrete, split_on, ◌≡◌, refl,
}
use postman_bootstrap_action.Base.Contract.{ok, err, definition_root_mismatch}
use postman_bootstrap_action.Base.Json.{Json, str, num, arr, obj, nil, cons, end, field, get}
use postman_bootstrap_action.Base.Sorting.{lt_text}
use postman_bootstrap_action.Spec.Bundle.{
  protobuf, root, full, is_absolute, is_dotted, case_fold_path_key,
  assert_valid_bundle_relative_path, add_key, collide_from, assert_no_path_collisions,
}
use postman_bootstrap_action.Spec.Bundle.Inventory.{
  DefinitionInventory, aws, parse_inventory_provider, parse_completeness, parse_role, parse_sha256,
  are_ascending, assert_ascending, assert_sole_root, parse_entry, parse_entries, check_files,
  build_inventory, parse_inventory, parse_definition_inventory_json,
}
use postman_bootstrap_action.Spec.Bundle.Inventory.Laws.{
  IsInventory, parse_definition_inventory_json-IsInventory,
}

abbrev same : Text → Text
same t = t

abbrev digest : Text
digest = codes "0123456789abcdef0123456789abcdef0123456789abcdef0123456789abcdef"

abbrev entry : Json
entry = obj (
    field (codes "path") (str (codes "a.proto")) (
      field (codes "role") (str (codes "root"))
        (field (codes "bytes") (num false (codes "7")) (field (codes "sha256") (str digest) end))))

abbrev document : Text → Json
document root_path = obj (
    field (codes "schemaVersion") (num false (codes "1")) (
      field (codes "root") (str root_path) (
        field (codes "format") (str (codes "protobuf")) (
          field (codes "completeness") (str (codes "full")) (
            field (codes "provenance")
              (obj (
                field (codes "kind") (str (codes "provider"))
                  (field (codes "provider") (str (codes "aws")) end)))
              (field (codes "files") (arr (cons entry nil)) end))))))

-- The text that is parsed is the root path of the document.
abbrev read : Text → Option Json
read t = some (document t)

abbrev seven : Text → Option ℕ
seven t = some 7

abbrev inventory : DefinitionInventory
inventory = record {
  root_path = codes "a.proto";
  format = protobuf;
  completeness = full;
  provider = aws;
  files = record { path = codes "a.proto"; role = root; bytes = 7; sha256 = digest } ∷ [];
}

inventory_parses :
    parse_definition_inventory_json same same read seven (codes "a.proto") ≡ ok inventory
unfolding parse_definition_inventory_json parse_inventory build_inventory check_files parse_entries
    parse_entry assert_sole_root assert_ascending are_ascending parse_sha256 parse_role
    parse_completeness parse_inventory_provider get lt_text assert_valid_bundle_relative_path
    is_absolute is_dotted split_on assert_no_path_collisions collide_from add_key case_fold_path_key
    Text-discrete ℕ_discrete
inventory_parses = refl

other_root_refused :
    parse_definition_inventory_json same same read seven (codes "b.proto")
    ≡ err definition_root_mismatch
unfolding parse_definition_inventory_json parse_inventory build_inventory check_files parse_entries
    parse_entry assert_sole_root assert_ascending are_ascending parse_sha256 parse_role
    parse_completeness parse_inventory_provider get lt_text assert_valid_bundle_relative_path
    is_absolute is_dotted split_on assert_no_path_collisions collide_from add_key case_fold_path_key
    Text-discrete ℕ_discrete
other_root_refused = refl

parse_definition_inventory_json-IsInventory_example : IsInventory same same inventory
parse_definition_inventory_json-IsInventory_example =
    parse_definition_inventory_json-IsInventory same same read seven (codes "a.proto") inventory
      inventory_parses
