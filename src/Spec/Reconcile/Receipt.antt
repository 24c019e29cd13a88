-- ===== src/Spec/Reconcile/Receipt.antt =====
-- src/lib/postman/spec-file-reconcile.ts: the receipt of the live probes, and what it must hold
-- before files are synchronised by default. A function that throws returns whether it does not.
use postman_bootstrap_action.Base.{
  Bool, true, false, not, ◌&&◌, ◌||◌, Option, none, some, List, [], ◌∷◌, Text, codes, ◌===◌,
  is_empty, all, or_else, if◌then◌else◌,
}
use postman_bootstrap_action.Base.Json.{
  Json, Items, Fields, bool, num, str, arr, obj, nil, cons, get, as_text,
}

pub record SpecReconcileCapabilityPolicy : Type 0 where
  pub bulk_modify : Bool
  pub atomic_bulk : Bool
  pub root_path_change : Bool

abbrev pub required_modes : List Text
required_modes = codes "nonorg" ∷ codes "org" ∷ []

abbrev pub required_probes : List Text
required_probes =
    codes "P01"
    ∷ codes "P02"
    ∷ codes "P03"
    ∷ codes "P04"
    ∷ codes "P05"
    ∷ codes "P06"
    ∷ codes "P07"
    ∷ codes "P08"
    ∷ codes "P09"
    ∷ codes "P10"
    ∷ []

abbrev pub required_capabilities : List Text
required_capabilities =
    codes "multiFileCreate"
    ∷ codes "multiFileRead"
    ∷ codes "perFileCreate"
    ∷ codes "perFilePatch"
    ∷ codes "perFileDelete"
    ∷ codes "bulkModify"
    ∷ codes "openapiGeneration"
    ∷ []

abbrev pub recorded_capabilities : List Text
recorded_capabilities = codes "atomicBulk" ∷ codes "rootPathChange" ∷ []

-- `receiptAsRecord` of a value that may be absent: the fields of an object.
abbrev pub receipt_as_record : Option Json → Option Fields
receipt_as_record (some (obj fs)) = some fs
receipt_as_record _ = none

abbrev pub is_bool : Option Json → Bool
is_bool (some (bool b)) = true
is_bool _ = false

abbrev pub is_true : Option Json → Bool
is_true (some (bool true)) = true
is_true _ = false

abbrev pub is_false : Option Json → Bool
is_false (some (bool false)) = true
is_false _ = false

-- A text that is not empty.
abbrev pub is_named : Option Json → Bool
is_named (some (str t)) = not (is_empty t)
is_named _ = false

-- The number one: not zero, and `1` in decimal.
abbrev pub is_one : Option Json → Bool
is_one (some (num zero t)) = not zero && t === codes "1"
is_one _ = false

abbrev pub items_of : Option Json → Option Items
items_of (some (arr xs)) = some xs
items_of _ = none

-- A row of results is an object with an identifier that is not empty and a Boolean `passed`.
unfoldable pub is_row : Json → Bool
is_row (obj row) = is_named (get row (codes "id")) && is_bool (get row (codes "passed"))
is_row _ = false

unfoldable pub are_rows : Items → Bool
are_rows nil = true
are_rows (cons row rows) = is_row row && are_rows rows

abbrev pub row_with : Text → Json → Option Fields
row_with id (obj row) = if is_id (as_text (get row (codes "id"))) then some row else none
  where
    is_id : Option Text → Bool
    is_id none = false
    is_id (some t) = t === id
row_with id _ = none

-- `byId.get(id)`: a later row with the same identifier replaces an earlier one.
unfoldable pub by_id : Items → Text → Option Fields
by_id nil id = none
by_id (cons row rows) id = or_else (by_id rows id) (row_with id row)

abbrev pub has_passed : Option Fields → Bool
has_passed none = false
has_passed (some row) = is_true (get row (codes "passed"))

-- `P11.passed` is a Boolean when there is such a row.
abbrev pub is_optional : Option Fields → Bool
is_optional none = true
is_optional (some row) = is_bool (get row (codes "passed"))

unfoldable pub results_pass : Option Items → Bool
results_pass none = false
results_pass (some rows) =
    are_rows rows
    && all (λ id. has_passed (by_id rows id)) required_probes
    && is_optional (by_id rows (codes "P11"))

abbrev pub without_residue : Option Fields → Bool
without_residue none = false
without_residue (some teardown) = is_false (get teardown (codes "residue"))

unfoldable pub leg_passes : Json → Bool
leg_passes (obj leg) =
    is_named (get leg (codes "mode"))
    && without_residue (receipt_as_record (get leg (codes "teardown")))
    && results_pass (items_of (get leg (codes "results")))
leg_passes _ = false

unfoldable pub legs_pass : Items → Bool
legs_pass nil = true
legs_pass (cons leg legs) = leg_passes leg && legs_pass legs

abbrev pub has_mode : Text → Json → Bool
has_mode mode (obj leg) = is_mode (as_text (get leg (codes "mode")))
  where
    is_mode : Option Text → Bool
    is_mode none = false
    is_mode (some t) = t === mode
has_mode mode _ = false

-- `modes.has(mode)`
unfoldable pub modes_have : Items → Text → Bool
modes_have nil mode = false
modes_have (cons leg legs) mode = has_mode mode leg || modes_have legs mode

abbrev pub legs_suffice : Option Items → Bool
legs_suffice none = false
legs_suffice (some nil) = false
legs_suffice (some (cons leg legs)) =
    legs_pass (cons leg legs) && all (modes_have (cons leg legs)) required_modes

abbrev pub capabilities_suffice : Option Fields → Bool
capabilities_suffice none = false
capabilities_suffice (some capabilities) =
    all (λ key. is_true (get capabilities key)) required_capabilities
    && all (λ key. is_bool (get capabilities key)) recorded_capabilities

unfoldable pub r5_receipt_justifies_multi_file_sync : Json → Bool
r5_receipt_justifies_multi_file_sync (obj fields) =
    is_one (get fields (codes "schemaVersion"))
    && legs_suffice (items_of (get fields (codes "legs")))
    && capabilities_suffice (receipt_as_record (get fields (codes "capabilities")))
r5_receipt_justifies_multi_file_sync _ = false

abbrev policy_of : Option Fields → Option SpecReconcileCapabilityPolicy
policy_of none = none
policy_of (some capabilities) = some (record {
  bulk_modify = is_true (get capabilities (codes "bulkModify"));
  atomic_bulk = is_true (get capabilities (codes "atomicBulk"));
  root_path_change = is_true (get capabilities (codes "rootPathChange"));
})

abbrev capabilities_of : Json → Option Fields
capabilities_of (obj fields) = receipt_as_record (get fields (codes "capabilities"))
capabilities_of _ = none

unfoldable pub derive_spec_reconcile_capability_policy_from_receipt :
    Json → Option SpecReconcileCapabilityPolicy
derive_spec_reconcile_capability_policy_from_receipt receipt =
    if r5_receipt_justifies_multi_file_sync receipt
    then policy_of (capabilities_of receipt)
    else none

-- Whether the default is `on`.
unfoldable pub resolve_multi_file_spec_sync_default_from_receipt : Json → Bool
resolve_multi_file_spec_sync_default_from_receipt receipt =
    r5_receipt_justifies_multi_file_sync receipt
