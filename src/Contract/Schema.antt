-- ===== src/Contract/Schema.antt =====
-- pkg/contract/schema.go: a declared shape as a JSON Schema, and what JSON Schema says of a value.
use atenea.Prelude.Float.{Float64, nan, units}
use atenea.Prelude.Int.{pos, negsuc}
use atenea.Prelude.Str.{Str, str_eq}
use atenea.Prelude.{
  suc, ◌%◌, Bool, true, false, ◌&&◌, ◌||◌, ◌==◌, List, [], ◌∷◌, Option, none, some, if◌then◌else◌,
}
use atenea.Contract.Implementation.{contains}
use atenea.Contract.Value.{
  Value, boolean, float, text, array, object, Fields, end, field, get_field, unit,
}
use atenea.Contract.Capability.{
  FieldType, type_string, type_string_list, type_int, type_bool, type_record, type_record_list,
  type_float, Field, FieldList, declare, no_more, more, Capability,
}
use atenea.Contract.Payload.{declared, is_finite, every_item, is_some}

-- The maps that `fieldSchema` and `objectSchema` build, a constructor for each form: an empty
-- `enum`, `required` or description is a key that is not there. An object always has
-- `additionalProperties` false.
mutual
  pub data Node : Type 0 where
    string_node : (enum : List Str) → Node
    integer_node : Node
    number_node : Node
    boolean_node : Node
    array_node : Node → Node
    object_node : Properties → (required : List Str) → Node
    described : (description : Str) → Node → Node

  pub data Properties : Type 0 where
    none_more : Properties
    property : Str → Node → Properties → Properties

abbrev pub describe : Str → Node → Node
describe [] node = node
describe (c ∷ summary) node = described (c ∷ summary) node

-- The loop that fills `required`.
unfoldable pub required_names : FieldList → List Str
required_names no_more = []
required_names (more (declare name type required summary fields enum) rest) =
    let names = required_names rest in if required then name ∷ names else names

abbrev pub typed_node : FieldType → List Str → Node → Node
typed_node type_string enum nested = string_node enum
typed_node type_int enum nested = integer_node
typed_node type_float enum nested = number_node
typed_node type_bool enum nested = boolean_node
typed_node type_string_list enum nested = array_node (string_node enum)
typed_node type_record enum nested = nested
typed_node type_record_list enum nested = array_node nested

-- `properties[field.Name] = entry` in a loop: of two fields with one name the later one stays.
unfoldable mutual
  unfolding required_names

  pub field_schema : Field → Node
  field_schema (declare name type required summary fields enum) =
      describe summary
        (typed_node type enum (object_node (properties_of fields) (required_names fields)))

  pub properties_of : FieldList → Properties
  properties_of no_more = none_more
  properties_of (more (declare name type required summary fields enum) rest) =
      let others = properties_of rest in
      let entry = field_schema (declare name type required summary fields enum) in
      if declared name rest then others else property name entry others

unfoldable pub object_schema : FieldList → Node
unfolding properties_of required_names
object_schema fields = object_node (properties_of fields) (required_names fields)

unfoldable pub input_schema : Capability → Node
unfolding object_schema
input_schema c = object_schema c.inputs

unfoldable pub output_schema : Capability → Node
unfolding object_schema
output_schema c = object_schema c.outputs

-- What JSON Schema says: a float64 is an integer if it has no fraction.
abbrev pub no_fraction : Float64 → Bool
no_fraction nan = false
no_fraction (units (pos n)) = n % unit == 0
no_fraction (units (negsuc n)) = suc n % unit == 0

abbrev pub one_of : List Str → Str → Bool
one_of [] t = true
one_of (e ∷ enum) t = contains t (e ∷ enum)

abbrev pub named : Str → Properties → Bool
named k none_more = false
named k (property name node rest) = str_eq name k || named k rest

abbrev pub all_named : Properties → Fields → Bool
all_named props end = true
all_named props (field k v rest) = named k props && all_named props rest

abbrev pub all_present : List Str → Fields → Bool
all_present [] payload = true
all_present (k ∷ ks) payload = is_some (get_field k payload) && all_present ks payload

-- A property that the value does not have is not tested.
abbrev pub if_present : (Value → Bool) → Option Value → Bool
if_present test none = true
if_present test (some v) = test v

abbrev pub on_object : (Fields → Bool) → Value → Bool
on_object test (object r) = test r
on_object test _ = false

abbrev pub on_array : (Value → Bool) → Value → Bool
on_array test (array items) = every_item test items
on_array test _ = false

abbrev pub on_text : (Str → Bool) → Value → Bool
on_text test (text t) = test t
on_text test _ = false

abbrev pub on_float : (Float64 → Bool) → Value → Bool
on_float test (float x) = test x
on_float test _ = false

unfoldable mutual
  pub accepts : Node → Value → Bool
  accepts (string_node enum) v = on_text (one_of enum) v
  accepts integer_node v = on_float no_fraction v
  accepts number_node v = on_float is_finite v
  accepts boolean_node (boolean b) = true
  accepts boolean_node v = false
  accepts (array_node node) v = on_array (accepts node) v
  accepts (object_node props required) v =
      on_object (λ r. all_named props r && (accepts_properties props r && all_present required r)) v
  accepts (described description node) v = accepts node v

  pub accepts_properties : Properties → Fields → Bool
  accepts_properties none_more payload = true
  accepts_properties (property name node rest) payload =
      if_present (accepts node) (get_field name payload) && accepts_properties rest payload
