-- ===== src/Spec/Reconcile.antt =====
-- src/lib/postman/spec-file-reconcile.ts: the files of a specification in Spec Hub, and the
-- operations that make them those of a bundle.
pub mod Plan
pub mod Ordering
pub mod Receipt
pub mod Gateway
pub mod Convert
use postman_bootstrap_action.Base.{
  ℕ, Bool, true, false, ◌||◌, not, Option, none, some, List, [], ◌∷◌, map, Text, Text-discrete,
  codes, ◌===◌, ◌==◌, is_empty, trim, cut, split_on, or_else, if◌then◌else◌,
}
use postman_bootstrap_action.Base.Contract.{
  Result, ok, err, ◌>>=◌, spec_root_path_change_unsupported, unsupported_openapi_version,
}
use postman_bootstrap_action.Base.Sorting.{sort_by}
use postman_bootstrap_action.Spec.Bundle.{
  DefinitionFileRole, root, dependency, DefinitionFormat, openapi_json, openapi_yaml,
  DefinitionFile, DefinitionBundle, assert_valid_bundle_relative_path, collide_from,
}

pub data CloudSpecFileRole : Type 0 where
  root_type default_type : CloudSpecFileRole

-- The type is any text: the service may have others than `ROOT` and `DEFAULT`.
pub record CloudSpecFileMeta : Type 0 where
  pub id : Text
  pub path : Text
  pub type : Text
  pub parent_id : Option Text

pub record CreateEntry : Type 0 where
  pub path : Text
  pub content : Text

pub record UpdateEntry : Type 0 where
  pub id : Text
  pub content : Text

-- A deletion is the identifier of a file.
pub record SpecFileReconcilePlan : Type 0 where
  pub create : List CreateEntry
  pub update : List UpdateEntry
  pub delete : List Text

unfoldable pub is_root_type : Text → Bool
is_root_type t = t === codes "ROOT"

unfoldable pub is_default_type : Text → Bool
is_default_type t = t === codes "DEFAULT"

unfoldable pub cloud_role_to_definition_role : Text → Option DefinitionFileRole
cloud_role_to_definition_role t =
    if is_root_type t then some root else if is_default_type t then some dependency else none

unfoldable pub definition_role_to_cloud_type : DefinitionFileRole → CloudSpecFileRole
definition_role_to_cloud_type root = root_type
definition_role_to_cloud_type dependency = default_type

abbrev is_nil {ℓ} : {A : Type ℓ} → List A → Bool
is_nil [] = true
is_nil (x ∷ xs) = false

unfoldable pub plan_has_mutations : SpecFileReconcilePlan → Bool
plan_has_mutations plan =
    not (is_nil plan.create) || not (is_nil plan.update) || not (is_nil plan.delete)

unfoldable pub is_openapi_spec_hub_format : DefinitionFormat → Bool
is_openapi_spec_hub_format openapi_json = true
is_openapi_spec_hub_format openapi_yaml = true
is_openapi_spec_hub_format _ = false

pub data OpenapiSpecType : Type 0 where
  openapi_3_0 openapi_3_1 : OpenapiSpecType

unfoldable pub openapi_spec_type : Text → Result OpenapiSpecType
openapi_spec_type version =
    if version === codes "3.1"
    then ok openapi_3_1
    else if version === codes "3.0"
    then ok openapi_3_0
    else err unsupported_openapi_version

pub record BodyFile : Type 0 where
  pub path : Text
  pub content : Text
  pub type : CloudSpecFileRole

pub record MultiFileCreateBody : Type 0 where
  pub name : Text
  pub type : OpenapiSpecType
  pub files : List BodyFile

unfoldable pub body_file : DefinitionFile → BodyFile
body_file f = record {
  path = f.path;
  content = f.content;
  type = definition_role_to_cloud_type f.role;
}

abbrev body_path : BodyFile → Text
body_path b = b.path

unfoldable pub create_body : Text → DefinitionBundle → OpenapiSpecType → MultiFileCreateBody
create_body name bundle type = record {
  name = name;
  type = type;
  files = sort_by body_path (map body_file bundle.files);
}

unfoldable pub build_multi_file_create_body :
    Text → Text → DefinitionBundle → Result MultiFileCreateBody
build_multi_file_create_body name version bundle =
    if is_openapi_spec_hub_format bundle.format
    then (openapi_spec_type version >>= λ type. ok (create_body name bundle type))
    else err unsupported_openapi_version

-- The text before the last `/` and the text behind it: `lastIndexOf` and two slices.
abbrev note_slash : ℕ → Text → Option (Text × Text) → Option (Text × Text) → Option (Text × Text)
note_slash c t (some (dir, base)) here = some (c ∷ dir, base)
note_slash c t none here = here

unfoldable pub split_last : Text → Option (Text × Text)
split_last [] = none
split_last (c ∷ t) = note_slash c t (split_last t) (if is_slash c then some ([], t) else none)
  where
    is_slash : ℕ → Bool
    is_slash c = c == b'/'

module _ (nfc to_lower : Text → Text) where
  -- The same loop as for the paths of a bundle; the two messages for a key that was seen are one here.
  unfoldable pub assert_no_cloud_path_collisions : List CloudSpecFileMeta → Result (Unit {0})
  assert_no_cloud_path_collisions metas =
      collide_from nfc to_lower [] (map (λ (m : CloudSpecFileMeta). m.path) metas)

  unfoldable pub same_path : Text → Text → Result (Unit {0})
  same_path cloud target = if cloud === target then ok tt else err spec_root_path_change_unsupported

  unfoldable pub assert_same_root_path : Text → Text → Result (Unit {0})
  assert_same_root_path cloud_root_path target_root_path = do
    cloud ← assert_valid_bundle_relative_path nfc to_lower cloud_root_path
    target ← assert_valid_bundle_relative_path nfc to_lower target_root_path
    same_path cloud target

  abbrev base_of : Text → Option (Text × Text) → Text
  base_of p none = p
  base_of p (some (dir, base)) = base

  unfoldable pub per_file_create_name : Text → Result Text
  per_file_create_name file_path = do
    normalized ← assert_valid_bundle_relative_path nfc to_lower file_path
    ok (base_of normalized (split_last normalized))

  -- `meta.parentId?.trim()`, when it is not blank.
  abbrev given_parent : CloudSpecFileMeta → Option Text
  given_parent m = elim m.parent_id [
    | none ↦ none
    | some id ↦ if is_empty (trim id) then none else some (trim id)
  ]

  abbrev is_in : Text → Option (Text × Text) → Bool
  is_in dir none = false
  is_in dir (some (d, base)) = d === dir

  -- A round of the loop: the parent of a file in the same folder ends it.
  unfoldable pub parent_or :
      Text → CloudSpecFileMeta → Text → Result (Option Text) → Result (Option Text)
  parent_or dir m meta_path rest =
      if is_in dir (split_last meta_path)
      then elim (given_parent m) [ none ↦ rest | some id ↦ ok (some id) ]
      else rest

  unfoldable pub parent_in : Text → List CloudSpecFileMeta → Result (Option Text)
  parent_in dir [] = ok none
  parent_in dir (m ∷ cloud) =
      let rest = parent_in dir cloud in
      assert_valid_bundle_relative_path nfc to_lower m.path >>= λ p. parent_or dir m p rest

  abbrev parent_for : List CloudSpecFileMeta → Option (Text × Text) → Result (Option Text)
  parent_for cloud none = ok none
  parent_for cloud (some (dir, base)) = parent_in dir cloud

  unfoldable pub resolve_per_file_create_parent_id :
      List CloudSpecFileMeta → Text → Result (Option Text)
  resolve_per_file_create_parent_id cloud file_path = do
    normalized ← assert_valid_bundle_relative_path nfc to_lower file_path
    parent_for cloud (split_last normalized)
