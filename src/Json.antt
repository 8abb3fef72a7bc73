-- ===== src/Json.antt =====
-- JSON values as `json.loads` gives them, and the operations that the program applies to them:
-- `d.get(key)`, truth, `x or {}`. A number is kept as its literal. The parser and the printer
-- themselves are parameters where they are used.
use win_validator.Base.{
  Bool, true, false, not, ◌||◌, [], ◌∷◌, Option, none, some, or_else, Text, text_eq, is_empty, ◌==◌,
  ◌&&◌, leb, if◌then◌else◌,
}

mutual
  pub data Json : Type 0 where
    null : Json
    bool : Bool → Json
    num : Text → Json
    str : Text → Json
    arr : Items → Json
    obj : Fields → Json

  pub data Items : Type 0 where
    nil : Items
    cons : Json → Items → Items

  pub data Fields : Type 0 where
    end : Fields
    field : Text → Json → Fields → Fields

-- What a Python operation does on a value of the wrong type.
pub data Fault : Type 0 where
  attribute_error type_error key_error value_error : Fault

abbrev pub find : Text → Fields → Option Json
find k end = none
find k (field j v fs) = if text_eq k j then some v else find k fs

-- A literal that is zero: there is no other digit in front of its exponent.
abbrev is_zero : Text → Bool
is_zero [] = true
is_zero (c ∷ s) =
    let later = is_zero s in
    if c == b'e' || c == b'E' then true else if leb b'1' c && leb c b'9' then false else later

-- `bool(v)`
abbrev pub truthy : Json → Bool
truthy null = false
truthy (bool b) = b
truthy (num s) = not (is_zero s)
truthy (str s) = not (is_empty s)
truthy (arr nil) = false
truthy (arr (cons _ _)) = true
truthy (obj end) = false
truthy (obj (field _ _ _)) = true

abbrev pub empty : Json
empty = obj end

-- `v or {}`
abbrev pub or_empty : Json → Json
or_empty v = if truthy v then v else empty

-- `v.get(key)`; only a dict has `get`.
abbrev pub get : Text → Json → Option Json
get k (obj fs) = some (or_else (find k fs) null)
get k null = none
get k (bool _) = none
get k (num _) = none
get k (str _) = none
get k (arr _) = none
