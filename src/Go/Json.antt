-- ===== src/Go/Json.antt =====
-- encoding/json at the level of values: what a text decodes to. Objects written from a Go map have
-- their keys in order, those written from a struct have them in the order of its fields.
use mpc_custody.Prelude.{List, [], ◌∷◌}
use mpc_custody.Go.Str.{Str}
use mpc_custody.Go.Int.{ℤ}
use mpc_custody.Go.Dict.{Dict}
use mpc_custody.Go.Sort.{sort_by_key}

mutual
  pub data Json : Type 0 where
    null : Json
    str : Str → Json
    num : ℤ → Json
    arr : Items → Json
    obj : Fields → Json

  pub data Items : Type 0 where
    nil : Items
    cons : Json → Items → Items

  pub data Fields : Type 0 where
    end : Fields
    field : Str → Json → Fields → Fields

pub string_fields : Dict Str → Fields
string_fields [] = end
string_fields ((k, v) ∷ m) = field k (str v) (string_fields m)

-- json.Marshal of a map[string]string
unfoldable pub marshal_strings : Dict Str → Json
unfolding string_fields sort_by_key
marshal_strings m = obj (string_fields (sort_by_key m))

unfoldable pub fields_of : List (Str × Json) → Fields
fields_of [] = end
fields_of ((name, value) ∷ rest) = field name value (fields_of rest)

-- The object with the fields of a list.
abbrev pub object : List (Str × Json) → Json
object fields = obj (fields_of fields)

unfoldable pub items_of : List Json → Items
items_of [] = nil
items_of (value ∷ rest) = cons value (items_of rest)

-- The array with the values of a list.
abbrev pub array : List Json → Json
array values = arr (items_of values)
