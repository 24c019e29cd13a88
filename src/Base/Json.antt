-- ===== src/Base/Json.antt =====
-- JSON values. A number is given by whether it is zero and by its decimal form; an object by its
-- fields in order, a name at most once, as `JSON.parse` returns it.
pub mod Print
use mathlib.Core.Bool.{Bool, true, false, not}
use mathlib.Core.Option.{Option, none, some}
use postman_bootstrap_action.Base.Tests.{if◌then◌else◌}
use postman_bootstrap_action.Base.Strings.{Text, ◌===◌, is_empty}

mutual
  pub data Json : Type 0 where
    null : Json
    bool : Bool → Json
    num : Bool → Text → Json
    str : Text → Json
    arr : Items → Json
    obj : Fields → Json

  pub data Items : Type 0 where
    nil : Items
    cons : Json → Items → Items

  pub data Fields : Type 0 where
    end : Fields
    field : Text → Json → Fields → Fields

-- `record[key]` of an object.
unfoldable pub get : Fields → Text → Option Json
get end key = none
get (field k v fs) key = if k === key then some v else get fs key

-- `value?.[key]` of any value: an object alone has named fields.
abbrev pub get_field : Json → Text → Option Json
get_field (obj fs) key = get fs key
get_field _ key = none

-- `Boolean(value)`; an absent value is `undefined`.
abbrev pub is_truthy : Json → Bool
is_truthy null = false
is_truthy (bool b) = b
is_truthy (num zero t) = not zero
is_truthy (str t) = not (is_empty t)
is_truthy (arr xs) = true
is_truthy (obj fs) = true

abbrev pub field_is_truthy : Option Json → Bool
field_is_truthy none = false
field_is_truthy (some v) = is_truthy v

-- A value that is a string.
abbrev pub as_text : Option Json → Option Text
as_text (some (str t)) = some t
as_text _ = none
