-- ===== src/Contract/Payload.antt =====
-- pkg/contract/capability.go: whether a payload has the shape that a capability declares. `true` is
-- the nil error. A `number` is an `int`, `int32` or `int64`, the only other numbers being float64.
pub mod Leaves
pub mod Agreement
use atenea.Prelude.Float.{Float64, nan, units, float_lt}
use atenea.Prelude.Int.{ℤ, pos, negsuc}
use atenea.Prelude.Str.{Str, str_eq}
use atenea.Prelude.{
  ℕ, ◌^◌, Bool, true, false, not, ◌&&◌, ◌||◌, ltb, List, [], ◌∷◌, Option, none, some, if◌then◌else◌,
}
use atenea.Contract.Implementation.{contains}
use atenea.Contract.Value.{
  Value, null, boolean, number, float, text, array, object, Values, none_left, item, Fields, end,
  field, get_field, as_int,
}
use atenea.Contract.Capability.{
  FieldType, type_string, type_string_list, type_int, type_bool, type_record, type_record_list,
  type_float, Field, FieldList, declare, no_more, more, Capability,
}

abbrev pub is_some : {A : Type 0} → Option A → Bool
is_some none = false
is_some (some a) = true

unfoldable pub is_integer : Value → Bool
unfolding as_int
is_integer (number n) = true
is_integer (float x) = is_some (as_int (float x))
is_integer _ = false

-- Neither NaN nor infinite: an infinity stands 2^2098 units away from 0.
unfoldable pub is_finite : Float64 → Bool
is_finite nan = false
is_finite (units (pos n)) = ltb n (2 ^ 2098)
is_finite (units (negsuc n)) = ltb n (2 ^ 2098)

unfoldable pub check_enum : List Str → Str → Bool
check_enum [] value = true
check_enum (e ∷ enum) value = contains value (e ∷ enum)

-- The loop over a list of texts.
unfoldable pub check_texts : List Str → Values → Bool
unfolding check_enum
check_texts enum none_left = true
check_texts enum (item (text t) rest) = check_enum enum t && check_texts enum rest
check_texts enum (item _ rest) = false

abbrev pub every_item : (Value → Bool) → Values → Bool
every_item p none_left = true
every_item p (item v rest) = p v && every_item p rest

-- Whether a field has the name.
abbrev pub declared : Str → FieldList → Bool
declared k no_more = false
declared k (more (declare name type required summary fields enum) rest) =
    str_eq name k || declared k rest

-- Every key of the payload is a declared name.
unfoldable pub all_known : FieldList → Fields → Bool
all_known fields end = true
all_known fields (field k v rest) = declared k fields && all_known fields rest

-- `check` on a value that is a map.
abbrev pub on_record : (Fields → Bool) → Value → Bool
on_record check (object r) = check r
on_record check _ = false

-- What the loop says of one field: its value is absent or nil, or checked.
abbrev pub check_present : Bool → (Value → Bool) → Option Value → Bool
check_present required check none = not required
check_present required check (some null) = not required
check_present required check (some v) = check v

-- `checkValue`, by the type of the field; `check` is `checkPayload` on its nested fields.
unfoldable pub check_typed : FieldType → List Str → (Fields → Bool) → Value → Bool
unfolding check_enum is_integer is_finite check_texts
check_typed type_string enum check (text t) = check_enum enum t
check_typed type_bool enum check (boolean b) = true
check_typed type_int enum check v = is_integer v
check_typed type_float enum check (float x) = is_finite x
check_typed type_string_list enum check (array items) = check_texts enum items
check_typed type_record enum check v = on_record check v
check_typed type_record_list enum check (array items) = every_item (on_record check) items
check_typed _ enum check v = false

unfoldable mutual
  unfolding check_typed all_known

  pub check_value : Field → Value → Bool
  check_value (declare name type required summary fields enum) v =
      check_typed type enum (λ r. all_known fields r && check_fields fields r) v

  -- The loop over the declared fields.
  pub check_fields : FieldList → Fields → Bool
  check_fields no_more payload = true
  check_fields (more (declare name type required summary fields enum) rest) payload =
      check_present required (check_value (declare name type required summary fields enum))
        (get_field name payload)
      && check_fields rest payload

unfoldable pub check_payload : FieldList → Fields → Bool
unfolding all_known check_fields
check_payload fields payload = all_known fields payload && check_fields fields payload

unfoldable pub validate_input : Capability → Fields → Bool
unfolding check_payload
validate_input c payload = check_payload c.inputs payload

unfoldable pub validate_output : Capability → Fields → Bool
unfolding check_payload
validate_output c payload = check_payload c.outputs payload
