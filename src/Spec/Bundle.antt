-- ===== src/Spec/Bundle.antt =====
-- src/lib/spec/definition-bundle.ts: the files of a definition and the bundle that they make.
pub mod Paths
pub mod Laws
pub mod Inventory
use postman_bootstrap_action.Base.{
  ℕ, ◌+◌, ◌*◌, Bool, true, false, ◌&&◌, ◌||◌, Option, none, some, List, [], ◌∷◌, ◌++◌, map, Text,
  codes, ◌===◌, ◌==◌, ltb, is_empty, is_letter, split_on, any, length, if◌then◌else◌,
}
use postman_bootstrap_action.Base.Contract.{
  Result, ok, err, ◌>>=◌, definition_inventory_invalid, spec_path_escape, ref_depth_exceeded,
  definition_duplicate_path, definition_encoding_invalid, ref_size_exceeded, ref_count_exceeded,
  definition_root_mismatch,
}

pub data DefinitionFormat : Type 0 where
  openapi_json openapi_yaml protobuf wsdl graphql_sdl graphql_introspection_json asyncapi_json
        asyncapi_yaml mcp_json :
      DefinitionFormat

pub data DefinitionFileRole : Type 0 where
  root dependency : DefinitionFileRole

pub data DefinitionCompleteness : Type 0 where
  full partial : DefinitionCompleteness

pub record DefinitionFile : Type 0 where
  pub path : Text
  pub role : DefinitionFileRole
  pub content : Text
  pub byte_length : ℕ
  pub sha256 : Text

-- The provenance, which nothing here reads, is left out.
pub record DefinitionBundle : Type 0 where
  pub root_path : Text
  pub format : DefinitionFormat
  pub completeness : DefinitionCompleteness
  pub files : List DefinitionFile
  pub digest : Text

abbrev pub max_files : ℕ
max_files = 101

abbrev pub max_depth : ℕ
max_depth = 20

-- 25 MiB, for each resource and for all of them together.
abbrev pub max_bytes_per_resource : ℕ
max_bytes_per_resource = 25 * 1024 * 1024

abbrev pub max_total_bytes : ℕ
max_total_bytes = 25 * 1024 * 1024

abbrev pub is_root : DefinitionFileRole → Bool
is_root root = true
is_root dependency = false

abbrev pub includes : ℕ → Text → Bool
includes c t = any (λ d. d == c) t

-- `rawPath.startsWith('/') || /^[A-Za-z]:/.test(rawPath)`
unfoldable pub is_absolute : Text → Bool
is_absolute [] = false
is_absolute (c ∷ []) = c == b'/'
is_absolute (c ∷ (d ∷ t)) = c == b'/' || (is_letter c && d == b':')

unfoldable pub is_dotted : Text → Bool
is_dotted segment = is_empty segment || segment === codes "." || segment === codes ".."

abbrev pub has_path : Text → List DefinitionFile → Bool
has_path p files = any (λ f. f.path === p) files

unfoldable pub assert_count : List DefinitionFile → Result (Unit {0})
assert_count files = if ltb max_files (length files) then err ref_count_exceeded else ok tt

-- The loop over the files: the map in order of insertion, the roots and the bytes so far.
unfoldable pub gather :
    List DefinitionFile → ℕ → ℕ → List DefinitionFile → Result (List DefinitionFile × ℕ)
gather files roots bytes [] = ok (files, roots)
gather files roots bytes (f ∷ rest) =
    let more =
      gather (files ++ f ∷ []) (if is_root f.role then roots + 1 else roots) (bytes + f.byte_length)
        rest in
    if has_path f.path files
    then err definition_duplicate_path
    else if ltb max_total_bytes (bytes + f.byte_length)
    then err ref_size_exceeded
    else more

-- `files.get(rootPath)` is there and is a root.
unfoldable pub root_at : Text → List DefinitionFile → Bool
root_at p [] = false
root_at p (f ∷ files) = if f.path === p then is_root f.role else root_at p files

-- The digest of the sorted inventory is a parameter.
module _ (bundle_digest : Text → DefinitionFormat → List DefinitionFile → Text) where
  -- The tests behind the loop over the files.
  unfoldable pub seal :
      Text
      → DefinitionFormat
      → DefinitionCompleteness
      → List DefinitionFile × ℕ
      → Result DefinitionBundle
  seal key format completeness (kept, roots) =
      if roots == 1
      then (if root_at key kept
          then ok (record {
            root_path = key;
            format = format;
            completeness = completeness;
            files = kept;
            digest = bundle_digest key format kept;
          })
          else err definition_root_mismatch)
      else err definition_inventory_invalid

-- Unicode normalisation and lower case are the runtime's: parameters.
module _ (nfc to_lower : Text → Text) where
  unfoldable pub case_fold_path_key : Text → Text
  case_fold_path_key value = to_lower (nfc value)

  unfoldable pub assert_valid_bundle_relative_path : Text → Result Text
  assert_valid_bundle_relative_path raw =
      if is_empty raw
      then err definition_inventory_invalid
      else if includes 0 raw || includes b'\\' raw || is_absolute raw
      then err spec_path_escape
      else if any is_dotted (split_on b'/' (nfc raw))
      then err spec_path_escape
      else if ltb max_depth (length (split_on b'/' (nfc raw)))
      then err ref_depth_exceeded
      else ok (nfc raw)

  -- A round of the loop below: the key of `n` is refused if it was seen, and seen from then on.
  unfoldable pub add_key : Text → List Text → (List Text → Result (Unit {0})) → Result (Unit {0})
  add_key n seen next =
      if any (λ k. k === case_fold_path_key n) seen
      then err definition_duplicate_path
      else next (case_fold_path_key n ∷ seen)

  -- The loop, over the folded paths that were seen. Whether the path that was seen is the same one or
  -- only folds to the same key makes no difference but to the message.
  unfoldable pub collide_from : List Text → List Text → Result (Unit {0})
  collide_from seen [] = ok tt
  collide_from seen (p ∷ ps) = do
    n ← assert_valid_bundle_relative_path p
    add_key n seen (λ seen'. collide_from seen' ps)

  unfoldable pub assert_no_path_collisions : List Text → Result (Unit {0})
  assert_no_path_collisions paths = collide_from [] paths

  -- Decoding UTF-8, `none` where it is malformed, and SHA-256 of bytes in hexadecimal.
  module _ (decode : List ℕ → Option Text) (sha256_hex : List ℕ → Text) where
    unfoldable pub decode_file : Text → DefinitionFileRole → List ℕ → Result DefinitionFile
    decode_file key role bytes =
        if ltb max_bytes_per_resource (length bytes)
        then err ref_size_exceeded
        else elim (decode bytes) [
          | none ↦ err definition_encoding_invalid
          | some text ↦ ok (record {
            path = key;
            role = role;
            content = text;
            byte_length = length bytes;
            sha256 = sha256_hex bytes;
          })
        ]

    unfoldable pub create_definition_file :
        Text → DefinitionFileRole → List ℕ → Result DefinitionFile
    create_definition_file path role bytes = do
      key ← assert_valid_bundle_relative_path path
      decode_file key role bytes

  module _ (bundle_digest : Text → DefinitionFormat → List DefinitionFile → Text) where
    unfoldable pub create_definition_bundle :
        Text
        → DefinitionFormat
        → DefinitionCompleteness
        → List DefinitionFile
        → Result DefinitionBundle
    create_definition_bundle root_path format completeness files = do
      key ← assert_valid_bundle_relative_path root_path
      _ ← assert_count files
      _ ← assert_no_path_collisions (map (λ (f : DefinitionFile). f.path) files)
      gathered ← gather [] 0 0 files
      seal bundle_digest key format completeness gathered
