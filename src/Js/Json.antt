-- ===== src/Js/Json.antt =====
-- The values that `JSON.parse` returns, and the fields of an object.
use nebula_clone.Prelude.{Bool, List, [], ◌∷◌, Option, none, some, String, ◌===◌, if◌then◌else◌}
use nebula_clone.Js.Number.{Number}

mutual
  pub data Json : Type 0 where
    null : Json
    bool : Bool → Json
    num : Number → Json
    str : String → Json
    arr : Items → Json
    obj : Fields → Json

  pub data Items : Type 0 where
    nil : Items
    cons : Json → Items → Items

  pub data Fields : Type 0 where
    end : Fields
    field : String → Json → Fields → Fields

abbrev pub items : Items → List Json
items nil = []
items (cons j js) = j ∷ items js

abbrev pub to_items : List Json → Items
to_items [] = nil
to_items (j ∷ js) = cons j (to_items js)

-- `record.key`; `none` is `undefined`.
unfoldable pub prop : String → Fields → Option Json
prop key end = none
prop key (field k j fs) = if k === key then some j else prop key fs

-- `asRecord`: an array is an object too, and has none of the fields that the parsers read.
abbrev pub as_record : Json → Option Fields
as_record (obj fs) = some fs
as_record (arr js) = some end
as_record _ = none

-- The `typeof` tests, with the value that they allow to read.
abbrev pub as_string : Option Json → Option String
as_string (some (str s)) = some s
as_string _ = none

abbrev pub as_array : Option Json → Option (List Json)
as_array (some (arr js)) = some (items js)
as_array _ = none

abbrev pub as_number : Option Json → Option Number
as_number (some (num n)) = some n
as_number _ = none

abbrev pub as_bool : Option Json → Option Bool
as_bool (some (bool b)) = some b
as_bool _ = none
