-- ===== src/OciRuntime/Json.antt =====
-- The values that encoding/json gives for `any`. A map is its fields, one for each key.
use drawbridge.Base.{ℕ, String, ◌≡◌, refl, Bool, Option, none, some, arith, if◌then◌else◌}
use drawbridge.Base.Eq.{◌==◌, string_eq}

-- A number is the bits of its float64.
mutual
  pub data Json : Type 0 where
    null : Json
    boolean : Bool → Json
    number : ℕ → Json
    text : String → Json
    array : Items → Json
    object : Fields → Json

  pub data Items : Type 0 where
    nil : Items
    cons : Json → Items → Items

  pub data Fields : Type 0 where
    end : Fields
    field : String → Json → Fields → Fields

-- m[key]
unfoldable pub field_of : String → Fields → Option Json
field_of key end = none
field_of key (field k v fs) = if k == key then some v else field_of key fs

-- m[key] = value
unfoldable pub with_field : String → Json → Fields → Fields
with_field key value end = field key value end
with_field key value (field k v fs) =
    let rest = with_field key value fs in if k == key then field k value fs else field k v rest

-- The type assertions `v.(map[string]any)`, `v.([]any)` and `v.(string)`, which give the zero value
-- where they do not hold: no map, no elements, no text.
unfoldable pub as_object : Option Json → Option Fields
as_object (some (object fs)) = some fs
as_object _ = none

unfoldable pub as_array : Option Json → Items
as_array (some (array xs)) = xs
as_array _ = nil

unfoldable pub as_text : Option Json → Option String
as_text (some (text s)) = some s
as_text _ = none

abbrev pub or_empty : Option String → String
or_empty none = ""
or_empty (some s) = s

unfoldable pub append : Items → Items → Items
append nil ys = ys
append (cons x xs) ys = cons x (append xs ys)

pub field_of-with_field :
    (key other : String) (value : Json) (fs : Fields)
    → field_of other (with_field key value fs)
      ≡ (if key == other then some value else field_of other fs)
unfolding field_of with_field
field_of-with_field key other value end = refl
field_of-with_field key other value (field k v fs) = ground (
  arith,
  field_of-with_field key other value fs,
  string_eq.equal_iff k key,
  string_eq.equal_iff k other,
  string_eq.equal_iff key other,
)
