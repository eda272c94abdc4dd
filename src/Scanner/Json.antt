-- ===== src/Scanner/Json.antt =====
-- The values that Python's `json.loads` returns, and what app/scanner/parser.py asks of them.
use echo_security_scanner.Base.{
  Bool, true, false, not, ◌||◌, Text, codes, text_eq, is_empty, contains, if◌then◌else◌,
}

-- A number is whether it is zero, and its `str()`. A dict's keys are distinct.
mutual
  pub data Json : Type 0 where
    null : Json
    bool : Bool → Json
    number : Bool → Text → Json
    string : Text → Json
    array : Items → Json
    object : Fields → Json

  pub data Items : Type 0 where
    nil : Items
    cons : Json → Items → Items

  pub data Fields : Type 0 where
    end : Fields
    field : Text → Json → Fields → Fields

-- `d.get(key)`: `None` for a missing key, as for a null.
unfoldable pub get : Text → Fields → Json
get key end = null
get key (field k v rest) = if text_eq k key then v else get key rest

-- `bool(value)`
unfoldable pub truthy : Json → Bool
truthy null = false
truthy (bool b) = b
truthy (number zero? _) = not zero?
truthy (string s) = not (is_empty s)
truthy (array nil) = false
truthy (array (cons _ _)) = true
truthy (object end) = false
truthy (object (field _ _ _)) = true

-- `type(value).__name__`. The `str()` of a float has a point, an exponent, or is `inf` or `nan`.
unfoldable pub type_name : Json → Text
type_name null = codes "NoneType"
type_name (bool _) = codes "bool"
type_name (number _ s) =
    if contains (codes ".") s || contains (codes "e") s || contains (codes "n") s
    then codes "float"
    else codes "int"
type_name (string _) = codes "str"
type_name (array _) = codes "list"
type_name (object _) = codes "dict"
