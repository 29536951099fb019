-- ===== src/Rpc/Json.antt =====
-- A decoded JSON value, as polygon_rpc.py reads one: `isinstance`, `dict.get` and the comparisons.
use oddsfox_pipeline.Base.{
  ℕ, ◌*◌, ◌^◌, String, List, [], ◌∷◌, Option, none, some, Bool, true, false, ◌==◌, str_eq, ℤ, pos,
  if◌then◌else◌,
}

-- `real` is a float that is finite, as a fraction `n / 2 ^ k`. The keys of an
-- object differ.
mutual
  pub data Json : Type 0 where
    null not_finite : Json
    bool : Bool → Json
    number : ℤ → Json
    real : ℤ → ℕ → Json
    text : String → Json
    array : Items → Json
    object : Fields → Json

  pub data Items : Type 0 where
    end_items : Items
    item : Json → Items → Items

  pub data Fields : Type 0 where
    end_fields : Fields
    entry : String → Json → Fields → Fields

unfoldable pub list_of : Items → List Json
list_of end_items = []
list_of (item value rest) = value ∷ list_of rest

unfoldable pub items_of : List Json → Items
items_of [] = end_items
items_of (value ∷ rest) = item value (items_of rest)

-- `fields.get(key)`, where `none` is a key that is not there.
unfoldable pub get : String → Fields → Option Json
get key end_fields = none
get key (entry name value rest) =
    let later = get key rest in if str_eq name key then some value else later

-- `fields.get(key)` with `None` for a missing key.
abbrev or_null : Option Json → Json
or_null none = null
or_null (some value) = value

unfoldable pub get_or_null : String → Fields → Json
unfolding get
get_or_null key fields = or_null (get key fields)

unfoldable pub has_key : String → Fields → Bool
unfolding get
has_key key fields = elim (get key fields) [ none ↦ false | some value ↦ true ]

-- `value is None`
abbrev pub is_null : Json → Bool
is_null null = true
is_null _ = false

abbrev pub is_false : Json → Bool
is_false (bool false) = true
is_false _ = false

abbrev pub is_text : String → Json → Bool
is_text expected (text value) = str_eq value expected
is_text expected _ = false

-- `value == n` for an `int`: in Python `True == 1` and `2.0 == 2`.
unfoldable pub equals_number : Json → ℕ → Bool
equals_number (number (pos m)) n = m == n
equals_number (bool true) n = 1 == n
equals_number (bool false) n = 0 == n
equals_number (real (pos m) k) n = m == n * 2 ^ k
equals_number _ n = false

-- `int(value)` where `isinstance(value, int)`, which holds of a `bool` too.
abbrev pub as_int : Json → Option ℤ
as_int (number n) = some n
as_int (bool true) = some (pos 1)
as_int (bool false) = some (pos 0)
as_int _ = none

abbrev pub as_object : Json → Option Fields
as_object (object fields) = some fields
as_object _ = none

abbrev pub as_array : Json → Option Items
as_array (array items) = some items
as_array _ = none

-- The objects of a list, unless one is none.
unfoldable pub objects_of : List Json → Option (List Fields)
objects_of [] = some []
objects_of (object fields ∷ values) = elim (objects_of values) [
  | none ↦ none
  | some rest ↦ some (fields ∷ rest)
]
objects_of (value ∷ values) = none
