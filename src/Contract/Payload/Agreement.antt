-- ===== src/Contract/Payload/Agreement.antt =====
-- pkg/contract: the schema of schema.go and the validator of capability.go agree on what a JSON
-- decoder gives.
use atenea.Prelude.Float.{units}
use atenea.Prelude.Int.{pos}
use atenea.Prelude.Str.{Str, str_eq_iff, str_eq_refl}
use atenea.Prelude.{
  ◌<◌, ℕ, ◌%◌, ◌/◌, ◌^◌, ◌≡◌, refl, ap, ◌∙◌, Bool, true, false, not, ◌&&◌, ◌||◌, List, [], ◌∷◌,
  Option, none, some, if◌then◌else◌, arith, &&-eq-true,
}
use atenea.Contract.Implementation.{contains}
use atenea.Contract.Value.{Value, null, float, object, Fields, end, field, get_field, as_int, unit}
use atenea.Contract.Capability.{
  FieldType, type_string, type_string_list, type_int, type_bool, type_record, type_record_list,
  type_float, FieldList, declare, no_more, more,
}
use atenea.Contract.Validate.{validate_fields, nested}
use atenea.Contract.Payload.{
  is_finite, is_some, is_integer, declared, all_known, check_present, check_value, check_fields,
  check_payload,
}
use atenea.Contract.Schema.{
  Node, Properties, property, describe, required_names, field_schema, properties_of, object_schema,
  named, all_named, all_present, if_present, accepts, accepts_properties,
}
use atenea.Contract.Payload.Leaves.{
  plain, plain_fields, plain-get_field, integer-agrees, text-agrees, float-agrees, bool-agrees,
  list-agrees, record-agrees, records-agree,
}

accepts-describe :
    (s : Str) (node : Node) (v : Value) → accepts (describe s node) v ≡ accepts node v
unfolding accepts
accepts-describe [] node v = refl
accepts-describe (c ∷ s) node v = refl

named-properties_of : (k : Str) (fs : FieldList) → named k (properties_of fs) ≡ declared k fs
unfolding properties_of
named-properties_of k no_more = refl
named-properties_of k (more (declare name type required summary fields enum) rest) =
    ground (arith, str_eq_iff name k, named-properties_of k rest)

all_named-properties_of :
    (fs : FieldList) (r : Fields) → all_named (properties_of fs) r ≡ all_known fs r
unfolding all_known
all_named-properties_of fs end = refl
all_named-properties_of fs (field k v rest) =
    ground (arith, named-properties_of k fs, all_named-properties_of fs rest)

-- Nested fields are valid where they count.
abbrev nested_valid : FieldType → FieldList → Bool
nested_valid type fields = not (nested type) || validate_fields [] fields

not-true : (b : Bool) → not b ≡ true → b ≡ false
not-true true h = cc
not-true false h = refl

validate-parts :
    (seen : List Str) (name : Str) (type : FieldType) (required : Bool) (summary : Str)
    (fields : FieldList) (enum : List Str) (rest : FieldList)
    → validate_fields seen (more (declare name type required summary fields enum) rest) ≡ true
    → (contains name seen ≡ false)
      × (nested_valid type fields ≡ true)
      × (validate_fields (name ∷ seen) rest ≡ true)
unfolding validate_fields
validate-parts seen name type required summary fields enum rest ok =
    let (prefix, others) = &&-eq-true _ _ ok in
    let (prefix, inner) = &&-eq-true _ _ prefix in
    let (prefix, enum_ok) = &&-eq-true _ _ prefix in
    let (prefix, few_fields) = &&-eq-true _ _ prefix in
    let (prefix, some_fields) = &&-eq-true _ _ prefix in
    let (named_well, new) = &&-eq-true _ _ prefix in (not-true _ new, inner, others)

-- A name seen before is declared by no later field.
validate-fresh :
    (k : Str) (seen : List Str) (fs : FieldList)
    → validate_fields seen fs ≡ true
    → contains k seen ≡ true
    → declared k fs ≡ false
validate-fresh k seen no_more ok h = refl
validate-fresh k seen (more (declare name type required summary fields enum) rest) ok h =
    let (new, inner, others) = validate-parts seen name type required summary fields enum rest ok in
    let later = validate-fresh k (name ∷ seen) rest others in
    ground (arith, str_eq_iff name k, later)

-- One field of the loop: what JSON Schema says of a property and of its being required.
field-agrees :
    (required : Bool) (p q : Value → Bool) (v : Option Value)
    → ((u : Value) → v ≡ some u → plain u ≡ true)
    → ((u : Value) → plain u ≡ true → p u ≡ q u)
    → (if_present p v && (not required || is_some v)) ≡ check_present required q v
unfolding plain
field-agrees required p q none ok h = ground arith
field-agrees required p q (some null) ok h = absurd (cc (ok null refl))
field-agrees required p q (some v) ok h = ground (arith, h v (ok v refl))

all_present-required :
    (required : Bool) (name : Str) (names : List Str) (r : Fields)
    → all_present (if required then name ∷ names else names) r
      ≡ ((not required || is_some (get_field name r)) && all_present names r)
all_present-required true name names r = refl
all_present-required false name names r = refl

seen_self : (name : Str) (seen : List Str) → contains name (name ∷ seen) ≡ true
seen_self name seen = ground (arith, str_eq_refl name)

-- The whole object, where its loops agree.
object-agrees :
    (fs : FieldList) (r : Fields)
    → (accepts_properties (properties_of fs) r && all_present (required_names fs) r)
      ≡ check_fields fs r
    → (all_named (properties_of fs) r
        && (accepts_properties (properties_of fs) r && all_present (required_names fs) r))
      ≡ (all_known fs r && check_fields fs r)
object-agrees fs r e = rw (all_named-properties_of fs r) (ap (λ b. all_known fs r && b) e)

-- The first field behind the loops over the others. `p` and `q` test its value.
loop_step :
    (required : Bool) (name : Str) (names : List Str) (others : Properties) (node : Node)
    (q : Value → Bool) (r : Fields) (rest : Bool)
    → ((v : Value) → plain v ≡ true → accepts node v ≡ q v)
    → plain_fields r ≡ true
    → (accepts_properties others r && all_present names r) ≡ rest
    → (accepts_properties (property name node others) r
        && all_present (if required then name ∷ names else names) r)
      ≡ (check_present required q (get_field name r) && rest)
unfolding accepts
loop_step required name names others node q r rest h p e =
    let one =
      field-agrees required (accepts node) q (get_field name r)
        (λ u at. plain-get_field name r u p at) h in
    ground (arith, one, e, all_present-required required name names r)

-- What is to show for each declared object.
abbrev LoopsAgree : FieldList → Type 0
LoopsAgree fs =
    (r : Fields)
    → plain_fields r ≡ true
    → (accepts_properties (properties_of fs) r && all_present (required_names fs) r)
      ≡ check_fields fs r

value-agrees :
    (name : Str) (type : FieldType) (required : Bool) (summary : Str) (fields : FieldList)
    (enum : List Str) (v : Value)
    → nested_valid type fields ≡ true
    → (validate_fields [] fields ≡ true → LoopsAgree fields)
    → plain v ≡ true
    → accepts (field_schema (declare name type required summary fields enum)) v
      ≡ check_value (declare name type required summary fields enum) v
unfolding check_value field_schema accepts
value-agrees name type_string required summary fields enum v ok h p =
    accepts-describe summary _ v ∙ text-agrees enum (λ r. true) v
value-agrees name type_string_list required summary fields enum v ok h p =
    accepts-describe summary _ v ∙ list-agrees enum (λ r. true) v
value-agrees name type_int required summary fields enum v ok h p =
    accepts-describe summary _ v ∙ integer-agrees v p
value-agrees name type_float required summary fields enum v ok h p =
    accepts-describe summary _ v ∙ float-agrees enum (λ r. true) v
value-agrees name type_bool required summary fields enum v ok h p =
    accepts-describe summary _ v ∙ bool-agrees enum (λ r. true) v
value-agrees name type_record required summary fields enum v ok h p =
    accepts-describe summary _ v ∙ record-agrees _ _ v (λ r q. object-agrees fields r (h ok r q)) p
value-agrees name type_record_list required summary fields enum v ok h p =
    accepts-describe summary _ v
    ∙ records-agree enum _ _ v (λ r q. object-agrees fields r (h ok r q)) p

loops-agree : (fs : FieldList) (seen : List Str) → validate_fields seen fs ≡ true → LoopsAgree fs
unfolding check_fields properties_of required_names accepts
loops-agree no_more seen ok r p = refl
loops-agree (more (declare name type required summary fields enum) rest) seen ok r p =
    let f = declare name type required summary fields enum in
    let (new, inner, others) = validate-parts seen name type required summary fields enum rest ok in
    let last = validate-fresh name (name ∷ seen) rest others (seen_self name seen) in
    rw last (
      loop_step required name (required_names rest) (properties_of rest) (field_schema f)
        (check_value f) r (check_fields rest r)
        (λ v q.
          value-agrees name type required summary fields enum v inner
            (λ ok'. loops-agree fields [] ok') q)
        p (loops-agree rest (name ∷ seen) others r p))

-- For declared fields that `validateFields` accepts, and a payload as a JSON decoder gives it, with
-- no null, each number finite and, where it has no fraction, in the range of int64: the schema that
-- `objectSchema` advertises accepts the payload exactly when `checkPayload` does.
pub object_schema-check_payload :
    (fs : FieldList) (r : Fields)
    → validate_fields [] fs ≡ true
    → plain_fields r ≡ true
    → accepts (object_schema fs) (object r) ≡ check_payload fs r
unfolding object_schema check_payload accepts
object_schema-check_payload fs r ok p = object-agrees fs r (loops-agree fs [] ok r p)

-- For each `int` field and each finite number above 2^63 with no fraction, so that no int64 is equal
-- to it nor is the float64 of the nearest one: the schema accepts it, and the validator refuses it.
pub field_schema-too_large :
    (name : Str) (required : Bool) (summary : Str) (fields : FieldList) (enum : List Str) (n : ℕ)
    → n % unit ≡ 0
    → 2 ^ 63 < n / unit
    → is_finite (units (pos n)) ≡ true
    → (accepts
          (field_schema (declare name type_int required summary fields enum))
          (float (units (pos n)))
        ≡ true)
      × (check_value (declare name type_int required summary fields enum) (float (units (pos n)))
          ≡ false)
unfolding field_schema accepts check_value is_integer as_int
field_schema-too_large name required summary fields enum n whole large finite =
    (accepts-describe summary _ (float (units (pos n))) ∙ ground arith, ground arith)
