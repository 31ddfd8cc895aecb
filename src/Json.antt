-- ===== src/Json.antt =====
-- JSON values as `JSON.parse` returns them, and the reads of src/services/ramp/providers on them. An
-- object's keys are distinct; a number is held as the text that `String` prints for it.
use ulmara_backend.Common.{
  Bool, List, Option, Text, [], false, if◌then◌else◌, none, some, text_eq, true, ◌∷◌,
}

mutual
  pub data Json : Type 0 where
    null : Json
    boolean : Bool → Json
    number : Text → Json
    string : Text → Json
    array : Items → Json
    object : Fields → Json

  pub data Items : Type 0 where
    no_items : Items
    item : Json → Items → Items

  pub data Fields : Type 0 where
    no_fields : Fields
    field : Text → Json → Fields → Fields

unfoldable pub find_field : Text → Fields → Option Json
find_field k no_fields = none
find_field k (field key v rest) = if text_eq key k then some v else find_field k rest

-- `value.key`, where a missing key is `undefined`
abbrev pub member : Text → Json → Option Json
member k (object fs) = find_field k fs
member k _ = none

-- the value, if its type is "string"
abbrev pub as_text : Option Json → Option Text
as_text (some (string t)) = some t
as_text _ = none

-- a number, as `String` prints it
abbrev pub as_number : Option Json → Option Text
as_number (some (number t)) = some t
as_number _ = none

unfoldable pub text_at : Text → Json → Option Text
text_at k v = as_text (member k v)

abbrev pub is_null : Json → Bool
is_null null = true
is_null _ = false

-- `t || undefined`, and `if (!t)` on a text that may be missing
abbrev pub non_empty : Option Text → Option Text
non_empty (some (c ∷ cs)) = some (c ∷ cs)
non_empty _ = none

-- The fields of an object literal, without those whose value is undefined.
unfoldable pub literal : List (Text × Option Json) → Fields
literal [] = no_fields
literal ((k, none) ∷ rest) = literal rest
literal ((k, some v) ∷ rest) = field k v (literal rest)

abbrev pub quoted : Text → Option Json
quoted t = some (string t)

abbrev pub quoted_if : Option Text → Option Json
quoted_if none = none
quoted_if (some t) = some (string t)

-- `{ ...a, ...b }`
unfoldable over : Fields → Fields → Fields
over no_fields fs = fs
over (field k v rest) fs = field k v (over rest fs)

unfoldable pub spread : Json → Json → Json
unfolding over
spread (object a) (object b) = object (over b a)
spread a (object b) = object b
spread (object a) b = object a
spread a b = object no_fields
