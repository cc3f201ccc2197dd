-- ===== src/Json.antt =====
-- Decoded JSON as the SDK handles it: what `json.loads` yields and `json.dumps` takes.
-- Python's `None` is `null`. A float is kept as its 64-bit pattern, since no modelled code
-- computes with it. An object is a dict: `get_field` reads the entry of a key.
use codex_python_sdk_unoffic.Common.{
  ℕ, ℤ, String, Bool, Option, none, some, List, [], ◌∷◌, ◌==◌, string_eq, if◌then◌else◌, is_some,
}

mutual
  pub data Json : Type 0 where
    null : Json
    bool : Bool → Json
    int : ℤ → Json
    float : ℕ → Json
    text : String → Json
    array : Items → Json
    object : Fields → Json

  pub data Items : Type 0 where
    nil : Items
    cons : Json → Items → Items

  pub data Fields : Type 0 where
    end : Fields
    field : String → Json → Fields → Fields

-- `payload.get(key)`, with `none` for a missing key
unfoldable pub get_field : String → Fields → Option Json
get_field key end = none
get_field key (field k v fs) = if k == key then some v else get_field key fs

-- `key in payload`
abbrev pub has_field : String → Fields → Bool
has_field key fs = is_some (get_field key fs)

-- `None` for a missing value
abbrev pub or_null : Option Json → Json
or_null none = null
or_null (some v) = v

-- `payload.get(key)` as Python returns it
abbrev pub field_or_null : String → Fields → Json
field_or_null key fs = or_null (get_field key fs)

-- `value if isinstance(value, str) else None`
abbrev pub as_text : Json → Option String
as_text (text s) = some s
as_text _ = none

-- `isinstance(value, Mapping)`
abbrev pub as_object : Json → Option Fields
as_object (object fs) = some fs
as_object _ = none

abbrev pub is_null : Json → Bool
is_null null = Bool.true
is_null _ = Bool.false

-- the dict literal with these entries
abbrev pub fields : List (String × Json) → Fields
fields [] = end
fields ((k, v) ∷ l) = field k v (fields l)

abbrev pub append_fields : Fields → Fields → Fields
append_fields end gs = gs
append_fields (field k v fs) gs = field k v (append_fields fs gs)
