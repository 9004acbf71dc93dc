-- ===== src/Prelude/Value.antt =====
-- The values that `yaml.safe_load` and `json.loads` return, and the tests the code makes of them.
use satyrn_engine.Prelude.Tests.{if◌then◌else◌}
use satyrn_engine.Prelude.Int.{ℤ}
use satyrn_engine.Prelude.Text.{Text, txt, eq_text}
use mathlib.Core.Bool.{Bool, true, false, ◌&&◌}
use mathlib.Core.Option.{Option, none, some}
use mathlib.Core.List.{List, [], ◌∷◌}

-- A finite double is a whole number of units of 2 ^ -1074.
pub data Float : Type 0 where
  finite : ℤ → Float
  infinite : Float
  neg_infinite : Float
  nan : Float

-- `other` is a value of any other class, with that class's name: a date, a set, bytes.
mutual
  pub data Value : Type 0 where
    null : Value
    boolean : Bool → Value
    int : ℤ → Value
    float : Float → Value
    str : Text → Value
    list : Items → Value
    dict : Fields → Value
    other : Text → Value

  pub data Items : Type 0 where
    nil : Items
    cons : Value → Items → Items

  -- A dict in insertion order. A key that is no `str` is equal to no `str`.
  pub data Fields : Type 0 where
    end : Fields
    field : Text → Value → Fields → Fields
    odd_field : Value → Value → Fields → Fields

-- What a decoder ends with: a value, its own error with the error's text (`YAMLError`,
-- `JSONDecodeError`), or an exception of another class.
pub data Decoded : Type 0 where
  document : Value → Decoded
  decode_error : Text → Decoded
  other_error : Decoded

-- `data.get(key)`
unfoldable pub get : Fields → Text → Option Value
get end key = none
get (field name v rest) key = if eq_text name key then some v else get rest key
get (odd_field _ v rest) key = get rest key

-- A list all of whose items are `str` that pass the test, and those items.
unfoldable pub all_str : (Text → Bool) → Items → Bool
all_str test nil = true
all_str test (cons (str t) rest) = test t && all_str test rest
all_str test (cons _ rest) = false

-- `tuple(cast(list[str], items))`, where the cast is right
unfoldable pub strings : Items → List Text
strings nil = []
strings (cons (str t) rest) = t ∷ strings rest
strings (cons _ rest) = strings rest

-- A list of strings as a value
unfoldable pub texts : List Text → Items
texts [] = nil
texts (t ∷ ts) = cons (str t) (texts ts)

-- `type(value).__name__`
unfoldable pub type_name : Value → Text
type_name null = txt "NoneType"
type_name (boolean _) = txt "bool"
type_name (int _) = txt "int"
type_name (float _) = txt "float"
type_name (str _) = txt "str"
type_name (list _) = txt "list"
type_name (dict _) = txt "dict"
type_name (other name) = name
