-- ===== src/Encoding/Value.antt =====
-- The values that `encoding/json` decodes into `any`, and the type assertions on them.
use hyprbot.Prelude.{text_has_eq, ◌==◌, some, if◌then◌else◌, none, Bool, Option, Text}

-- A number keeps its literal.
mutual
  pub data Value : Type 0 where
    null : Value
    bool : Bool → Value
    num : Text → Value
    str : Text → Value
    arr : Values → Value
    obj : Fields → Value

  pub data Values : Type 0 where
    nil : Values
    cons : Value → Values → Values

  pub data Fields : Type 0 where
    end : Fields
    field : Text → Value → Fields → Fields

-- `m[key]`, with nil for a missing key.
unfoldable pub at_key : Text → Fields → Value
at_key k end = null
at_key k (field j v fs) = if k == j then v else at_key k fs

-- `v.(string)`
unfoldable pub as_string : Value → Option Text
as_string null = none
as_string (bool b) = none
as_string (num n) = none
as_string (str t) = some t
as_string (arr xs) = none
as_string (obj fs) = none

-- `v.(map[string]any)`
unfoldable pub as_fields : Value → Option Fields
as_fields null = none
as_fields (bool b) = none
as_fields (num n) = none
as_fields (str t) = none
as_fields (arr xs) = none
as_fields (obj fs) = some fs

abbrev first : Values → Option Value
first nil = none
first (cons v vs) = some v

-- `v.([]any)` with at least one element: the first one.
unfoldable pub as_first : Value → Option Value
as_first null = none
as_first (bool b) = none
as_first (num n) = none
as_first (str t) = none
as_first (arr xs) = first xs
as_first (obj fs) = none
