-- ===== src/Spec/Tests.antt =====
-- Bundles, their reconciliation and fetching at concrete inputs: tests, and each theorem where its
-- hypotheses hold.
use postman_bootstrap_action.Base.{
  Option, none, some, List, [], ◌∷◌, ◌++◌, Text, codes, Text-discrete, ℕ_discrete, split_on, ◌≡◌,
  refl,
}
use postman_bootstrap_action.Base.Contract.{ok, err, spec_path_escape}
use postman_bootstrap_action.Base.Sorting.{lt_text, insert_by, sort_by}
use postman_bootstrap_action.Spec.Bundle.{
  DefinitionFile, DefinitionBundle, root, dependency, openapi_json, full, is_absolute, is_dotted,
  case_fold_path_key, assert_valid_bundle_relative_path, add_key, collide_from,
  assert_no_path_collisions, assert_count, gather, root_at, seal, create_definition_bundle,
}
use postman_bootstrap_action.Spec.Bundle.{create_definition_file, decode_file}
use postman_bootstrap_action.Spec.Reconcile.{cloud_role_to_definition_role, is_default_type}
use postman_bootstrap_action.Spec.Reconcile.Convert.{
  CloudMember, member_files, cloud_members_to_definition_bundle,
}
use postman_bootstrap_action.Spec.Reconcile.Convert.Read.{AreRead}
use postman_bootstrap_action.Spec.Reconcile.Convert.Laws.{
  cloud_members_to_definition_bundle-IsBundle,
}
use postman_bootstrap_action.Base.{any, ◌&&◌, ◌===◌}
use postman_bootstrap_action.Spec.Reconcile.Ordering.Carried.{
  creates, deletes, order_per_file_reconcile_ops-carries,
}
use postman_bootstrap_action.Spec.Bundle.Paths.{descend, descend-assert_valid_bundle_relative_path}
use postman_bootstrap_action.Spec.Bundle.Laws.{IsBundle, create_definition_bundle-IsBundle}
use postman_bootstrap_action.Spec.Reconcile.{
  CloudSpecFileMeta, SpecFileReconcilePlan, is_root_type, assert_no_cloud_path_collisions,
}
use postman_bootstrap_action.Spec.Reconcile.Plan.{
  lookup, upsert_existing, upsert_new, upsert, upserts, cloud_by_path, stale_one, stale,
  plan_spec_file_reconcile,
}
use postman_bootstrap_action.Spec.Reconcile.Plan.Laws.{
  holds_after, has_file, plan_spec_file_reconcile-holds_after,
}
use postman_bootstrap_action.Spec.Reconcile.Ordering.{
  PerFileReconcileOp, create_op, update_op, delete_op, find_by_id, is_root_meta, creates_of, place,
  path_for, place_updates, deletes_of, order_per_file_reconcile_ops,
}
use postman_bootstrap_action.Spec.Reconcile.Ordering.Laws.{
  IsPhased, order_per_file_reconcile_ops-IsPhased,
}

-- ASCII paths in lower case, for the tests alone.
abbrev same : Text → Text
same t = t

abbrev file_at : Text → Text → DefinitionFile
file_at path content = record {
  path = path;
  role = dependency;
  content = content;
  byte_length = 3;
  sha256 = [];
}

abbrev root_file : DefinitionFile
root_file = record {
  path = codes "api.json";
  role = root;
  content = codes "new";
  byte_length = 3;
  sha256 = [];
}

abbrev files : List DefinitionFile
files = root_file ∷ file_at (codes "x/b.json") (codes "bbb") ∷ []

abbrev target : DefinitionBundle
target = record {
  root_path = codes "api.json";
  format = openapi_json;
  completeness = full;
  files = files;
  digest = [];
}

bundle_made :
    create_definition_bundle same same (λ _ _ _. []) (codes "api.json") openapi_json full files
    ≡ ok target
unfolding create_definition_bundle assert_valid_bundle_relative_path is_absolute is_dotted split_on
    assert_count assert_no_path_collisions collide_from add_key case_fold_path_key gather root_at
    seal Text-discrete ℕ_discrete
bundle_made = refl

create_definition_bundle-IsBundle_example : (files ≡ files) × IsBundle same same target
create_definition_bundle-IsBundle_example =
    create_definition_bundle-IsBundle same same (λ _ _ _. []) (codes "api.json") openapi_json full
      files target bundle_made

path_accepted :
    assert_valid_bundle_relative_path same same (codes "x/b.json") ≡ ok (codes "x/b.json")
unfolding assert_valid_bundle_relative_path is_absolute is_dotted split_on Text-discrete ℕ_discrete
path_accepted = refl

path_refused :
    assert_valid_bundle_relative_path same same (codes "x/../../b") ≡ err spec_path_escape
unfolding assert_valid_bundle_relative_path is_absolute is_dotted split_on Text-discrete ℕ_discrete
path_refused = refl

descend-assert_valid_bundle_relative_path_example :
    descend (codes "spec" ∷ []) (split_on b'/' (codes "x/b.json"))
    ≡ (codes "spec" ∷ []) ++ split_on b'/' (codes "x/b.json")
descend-assert_valid_bundle_relative_path_example =
    descend-assert_valid_bundle_relative_path same same (codes "x/b.json") (codes "x/b.json")
      (codes "spec" ∷ []) path_accepted

abbrev meta : Text → Text → Text → CloudSpecFileMeta
meta id path type = record { id = id; path = path; type = type; parent_id = none }

abbrev cloud : List CloudSpecFileMeta
cloud =
    meta (codes "1") (codes "api.json") (codes "ROOT")
    ∷ meta (codes "2") (codes "a.json") (codes "DEFAULT")
    ∷ []

abbrev contents : Text → Option Text
contents id = some (codes "old")

abbrev the_plan : SpecFileReconcilePlan
the_plan = record {
  create = record { path = codes "x/b.json"; content = codes "bbb" } ∷ [];
  update = record { id = codes "1"; content = codes "new" } ∷ [];
  delete = codes "2" ∷ [];
}

plan_made : plan_spec_file_reconcile same same contents cloud target ≡ ok the_plan
unfolding plan_spec_file_reconcile assert_no_cloud_path_collisions cloud_by_path upserts upsert
    upsert_new upsert_existing lookup stale stale_one is_root_type sort_by insert_by lt_text
    assert_valid_bundle_relative_path is_absolute is_dotted split_on collide_from add_key
    case_fold_path_key Text-discrete ℕ_discrete
plan_made = refl

plan_spec_file_reconcile-holds_after_example :
    holds_after same contents the_plan cloud (codes "api.json") (codes "new")
    ≡ has_file (codes "api.json") (codes "new") target.files
unfolding Text-discrete ℕ_discrete
plan_spec_file_reconcile-holds_after_example =
    plan_spec_file_reconcile-holds_after same same contents cloud target the_plan
      ((refl, (refl, tt))) (create_definition_bundle-IsBundle_example.1) plan_made
      (codes "api.json") (codes "new")

abbrev the_ops : List PerFileReconcileOp
the_ops =
    create_op (codes "x/b.json") (codes "bbb")
    ∷ update_op (codes "api.json") (codes "1") (codes "new")
    ∷ delete_op (codes "a.json") (codes "2")
    ∷ []

ops_ordered : order_per_file_reconcile_ops same same cloud the_plan ≡ ok the_ops
unfolding order_per_file_reconcile_ops creates_of place_updates place deletes_of path_for find_by_id
    is_root_meta is_root_type sort_by insert_by lt_text assert_valid_bundle_relative_path
    is_absolute is_dotted split_on Text-discrete ℕ_discrete
ops_ordered = refl

order_per_file_reconcile_ops-IsPhased_example : IsPhased cloud the_ops
order_per_file_reconcile_ops-IsPhased_example =
    order_per_file_reconcile_ops-IsPhased cloud same same the_plan the_ops ops_ordered

abbrev members : List CloudMember
members =
    record { path = codes "api.json"; type = codes "ROOT"; content = codes "new" }
    ∷ record { path = codes "b.json"; type = codes "DEFAULT"; content = codes "dep" }
    ∷ []

abbrev read_back : DefinitionBundle
read_back = record {
  root_path = codes "api.json";
  format = openapi_json;
  completeness = full;
  files = root_file ∷ file_at (codes "b.json") (codes "dep") ∷ [];
  digest = [];
}

members_read :
    cloud_members_to_definition_bundle same same some same
      (λ _. [])
      (λ _ _ _. [])
      openapi_json
      members
    ≡ ok read_back
unfolding cloud_members_to_definition_bundle member_files cloud_role_to_definition_role is_root_type
    is_default_type create_definition_file decode_file create_definition_bundle
    assert_valid_bundle_relative_path is_absolute is_dotted split_on assert_count
    assert_no_path_collisions collide_from add_key case_fold_path_key gather root_at seal
    Text-discrete ℕ_discrete
members_read = refl

cloud_members_to_definition_bundle-IsBundle_example :
    AreRead same same some same (λ _. []) (λ _ _ _. []) members read_back.files
    × IsBundle same same read_back
cloud_members_to_definition_bundle-IsBundle_example =
    cloud_members_to_definition_bundle-IsBundle same same some same (λ _. []) (λ _ _ _. [])
      openapi_json members read_back members_read

order_per_file_reconcile_ops-carries_example :
    (any (creates (codes "x/b.json") (codes "bbb")) the_ops
      ≡ any (λ e. (e.path === codes "x/b.json") && (e.content === codes "bbb")) the_plan.create)
    × (any (deletes (codes "2")) the_ops ≡ any (λ id. id === codes "2") the_plan.delete)
order_per_file_reconcile_ops-carries_example =
    order_per_file_reconcile_ops-carries same same cloud the_plan the_ops (codes "x/b.json")
      (codes "bbb") (codes "2") ops_ordered
