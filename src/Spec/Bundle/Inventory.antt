-- ===== src/Spec/Bundle/Inventory.antt =====
-- src/lib/spec/definition-bundle.ts, parseDefinitionInventoryJson: the list of the files that a
-- provider hands over.
pub mod Laws
mod Tests
use postman_bootstrap_action.Base.{
  ℕ, Bool, true, false, not, ◌&&◌, ◌||◌, Option, none, some, List, [], ◌∷◌, map, Text,
  Text-discrete, codes, ◌===◌, ◌==◌, leb, is_digit, all, length, if◌then◌else◌,
}
use postman_bootstrap_action.Base.Contract.{
  Result, ok, err, ◌>>=◌, definition_inventory_invalid, definition_root_mismatch,
}
use postman_bootstrap_action.Base.Json.{Json, Items, Fields, str, num, arr, obj, nil, cons, get}
use postman_bootstrap_action.Base.Sorting.{lt_text}
use postman_bootstrap_action.Spec.Bundle.{
  DefinitionFormat, openapi_json, openapi_yaml, protobuf, wsdl, graphql_sdl,
  graphql_introspection_json, asyncapi_json, asyncapi_yaml, mcp_json, DefinitionFileRole, root,
  dependency, DefinitionCompleteness, full, partial, is_root, assert_valid_bundle_relative_path,
  assert_no_path_collisions,
}

pub record DefinitionInventoryFile : Type 0 where
  pub path : Text
  pub role : DefinitionFileRole
  pub bytes : ℕ
  pub sha256 : Text

pub data Provider : Type 0 where
  aws gcp azure : Provider

pub record DefinitionInventory : Type 0 where
  pub root_path : Text
  pub format : DefinitionFormat
  pub completeness : DefinitionCompleteness
  pub provider : Provider
  pub files : List DefinitionInventoryFile

-- A test of `parsed` that fails with the code of an invalid inventory.
abbrev pub required {ℓ} : {A : Type ℓ} → Option A → Result A
required none = err definition_inventory_invalid
required (some a) = ok a

-- The name of one of the constants in a table, if the value is one.
abbrev pub named_in {ℓ} : {A : Type ℓ} → List (Text × A) → Option Json → Option A
named_in [] v = none
named_in ((name, a) ∷ rest) (some (str t)) =
    let later = named_in rest (some (str t)) in if t === name then some a else later
named_in ((name, a) ∷ rest) _ = none

abbrev pub definition_formats : List (Text × DefinitionFormat)
definition_formats =
    (codes "openapi-json", openapi_json)
    ∷ (codes "openapi-yaml", openapi_yaml)
    ∷ (codes "protobuf", protobuf)
    ∷ (codes "wsdl", wsdl)
    ∷ (codes "graphql-sdl", graphql_sdl)
    ∷ (codes "graphql-introspection-json", graphql_introspection_json)
    ∷ (codes "asyncapi-json", asyncapi_json)
    ∷ (codes "asyncapi-yaml", asyncapi_yaml)
    ∷ (codes "mcp-json", mcp_json)
    ∷ []

unfoldable pub parse_inventory_provider : Option Json → Option Provider
parse_inventory_provider v =
    named_in ((codes "aws", aws) ∷ (codes "gcp", gcp) ∷ (codes "azure", azure) ∷ []) v

unfoldable pub parse_completeness : Option Json → Option DefinitionCompleteness
parse_completeness v = named_in ((codes "full", full) ∷ (codes "partial", partial) ∷ []) v

unfoldable pub parse_role : Option Json → Option DefinitionFileRole
parse_role v = named_in ((codes "root", root) ∷ (codes "dependency", dependency) ∷ []) v

abbrev pub a_record : Option Json → Option Fields
a_record (some (obj fs)) = some fs
a_record _ = none

abbrev pub a_text : Option Json → Option Text
a_text (some (str t)) = some t
a_text _ = none

abbrev pub items_of : Option Json → Option Items
items_of (some (arr (cons x xs))) = some (cons x xs)
items_of _ = none

abbrev pub is_version_one : Option Json → Option (Unit {0})
is_version_one (some (num zero t)) = if not zero && t === codes "1" then some tt else none
is_version_one _ = none

abbrev is_hex : ℕ → Bool
is_hex c = is_digit c || (leb b'a' c && leb c b'f')

-- `/^[0-9a-f]{64}$/`
unfoldable pub parse_sha256 : Option Json → Option Text
parse_sha256 (some (str t)) = if length t == 64 && all is_hex t then some t else none
parse_sha256 _ = none

abbrev pub of_kind : Option Json → Option (Unit {0})
of_kind (some (str t)) = if t === codes "provider" then some tt else none
of_kind _ = none

abbrev pub inventory_path : DefinitionInventoryFile → Text
inventory_path f = f.path

-- Each path is less than the next one.
unfoldable pub are_ascending : List DefinitionInventoryFile → Bool
are_ascending [] = true
are_ascending (f ∷ []) = true
are_ascending (f ∷ (g ∷ fs)) = let rest = are_ascending (g ∷ fs) in lt_text f.path g.path && rest

abbrev pub roots_in : List DefinitionInventoryFile → List DefinitionInventoryFile
roots_in [] = []
roots_in (f ∷ fs) = let rest = roots_in fs in if is_root f.role then f ∷ rest else rest

unfoldable pub assert_ascending : List DefinitionInventoryFile → Result (Unit {0})
assert_ascending files = if are_ascending files then ok tt else err definition_inventory_invalid

unfoldable pub assert_sole_root : Text → List DefinitionInventoryFile → Result (Unit {0})
assert_sole_root root_path (f ∷ []) =
    if f.path === root_path then ok tt else err definition_root_mismatch
assert_sole_root root_path _ = err definition_inventory_invalid

-- The decimal form of a number that is an integer and not negative.
module _ (nfc to_lower : Text → Text) (json_parse : Text → Option Json)
    (natural : Text → Option ℕ) where
  abbrev parse_bytes : Option Json → Option ℕ
  parse_bytes (some (num zero t)) = natural t
  parse_bytes _ = none

  unfoldable pub parse_entry : Fields → Result DefinitionInventoryFile
  parse_entry entry = do
    raw ← required (a_text (get entry (codes "path")))
    role ← required (parse_role (get entry (codes "role")))
    bytes ← required (parse_bytes (get entry (codes "bytes")))
    sha256 ← required (parse_sha256 (get entry (codes "sha256")))
    path ← assert_valid_bundle_relative_path nfc to_lower raw
    ok (record { path = path; role = role; bytes = bytes; sha256 = sha256 })

  unfoldable pub parse_entries : Items → Result (List DefinitionInventoryFile)
  parse_entries nil = ok []
  parse_entries (cons entry entries) = do
    fields ← required (a_record (some entry))
    file ← parse_entry fields
    files ← parse_entries entries
    ok (file ∷ files)

  -- The tests of all files together.
  unfoldable pub check_files : Text → List DefinitionInventoryFile → Result (Unit {0})
  check_files root_path files = do
    _ ← assert_ascending files
    _ ← assert_no_path_collisions nfc to_lower (map inventory_path files)
    assert_sole_root root_path (roots_in files)

  -- The loop over the entries and what comes behind it.
  unfoldable pub build_inventory :
      Text
      → DefinitionFormat
      → DefinitionCompleteness
      → Provider
      → Items
      → Result DefinitionInventory
  build_inventory root_path format completeness provider entries = do
    files ← parse_entries entries
    _ ← check_files root_path files
    ok (record {
      root_path = root_path;
      format = format;
      completeness = completeness;
      provider = provider;
      files = files;
    })

  unfoldable pub parse_inventory : Fields → Result DefinitionInventory
  parse_inventory parsed = do
    _ ← required (is_version_one (get parsed (codes "schemaVersion")))
    raw ← required (a_text (get parsed (codes "root")))
    root_path ← assert_valid_bundle_relative_path nfc to_lower raw
    format ← required (named_in definition_formats (get parsed (codes "format")))
    completeness ← required (parse_completeness (get parsed (codes "completeness")))
    provenance ← required (a_record (get parsed (codes "provenance")))
    _ ← required (of_kind (get provenance (codes "kind")))
    provider ← required (parse_inventory_provider (get provenance (codes "provider")))
    entries ← required (items_of (get parsed (codes "files")))
    build_inventory root_path format completeness provider entries

  unfoldable pub parse_definition_inventory_json : Text → Result DefinitionInventory
  parse_definition_inventory_json raw = do
    parsed ← required (a_record (json_parse raw))
    parse_inventory parsed
