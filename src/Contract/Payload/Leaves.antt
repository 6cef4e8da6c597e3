-- ===== src/Contract/Payload/Leaves.antt =====
-- pkg/contract: the schema and the validator agree on the values of one field.
use atenea.Prelude.Float.{Float64, nan, units}
use atenea.Prelude.Int.{pos, negsuc}
use atenea.Prelude.Str.{Str}
use atenea.Prelude.{◌≡◌, refl, Bool, true, false, not, ◌&&◌, ◌||◌, List, [], ◌∷◌, some, arith}
use atenea.Contract.Value.{
  Value, null, boolean, number, float, text, array, object, Values, none_left, item, Fields, end,
  field, get_field, as_int,
}
use atenea.Contract.Capability.{
  type_string, type_string_list, type_bool, type_record_list, type_float,
}
use atenea.Contract.Payload.{
  is_integer, is_finite, check_enum, check_texts, every_item, on_record, check_typed,
}
use atenea.Contract.Schema.{
  string_node, boolean_node, no_fraction, one_of, on_object, on_array, on_text, on_float, accepts,
}

-- A number of a decoded payload: finite, and in the range of int64 if it has no fraction.
abbrev pub plain_float : Float64 → Bool
plain_float x = is_finite x && (not (no_fraction x) || is_integer (float x))

-- What a JSON decoder gives, without null: every number is a float64.
unfoldable mutual
  pub plain : Value → Bool
  plain null = false
  plain (boolean b) = true
  plain (number n) = false
  plain (float x) = plain_float x
  plain (text t) = true
  plain (array items) = plain_items items
  plain (object r) = plain_fields r

  pub plain_items : Values → Bool
  plain_items none_left = true
  plain_items (item v rest) = plain v && plain_items rest

  pub plain_fields : Fields → Bool
  plain_fields end = true
  plain_fields (field k v rest) = plain v && plain_fields rest

pub plain-get_field :
    (k : Str) (r : Fields) (v : Value)
    → plain_fields r ≡ true
    → get_field k r ≡ some v
    → plain v ≡ true
unfolding plain_fields get_field
plain-get_field k end v p h = cc
plain-get_field k (field j u rest) v p h = ground (arith, plain-get_field k rest v)

integer-no_fraction : (x : Float64) → is_integer (float x) ≡ true → no_fraction x ≡ true
unfolding is_integer as_int
integer-no_fraction nan h = cc
integer-no_fraction (units (pos n)) h = ground arith
integer-no_fraction (units (negsuc n)) h = ground arith

-- The leaves.
pub integer-agrees : (v : Value) → plain v ≡ true → on_float no_fraction v ≡ is_integer v
unfolding plain is_integer
integer-agrees (float x) p = ground (arith, integer-no_fraction x)
integer-agrees (number n) p = absurd (cc)
integer-agrees v p = refl

one_of-check_enum : (enum : List Str) (t : Str) → one_of enum t ≡ check_enum enum t
unfolding check_enum
one_of-check_enum [] t = refl
one_of-check_enum (e ∷ enum) t = refl

pub text-agrees :
    (enum : List Str) (check : Fields → Bool) (v : Value)
    → on_text (one_of enum) v ≡ check_typed type_string enum check v
unfolding check_typed
text-agrees enum check (text t) = one_of-check_enum enum t
text-agrees enum check v = refl

pub float-agrees :
    (enum : List Str) (check : Fields → Bool) (v : Value)
    → on_float is_finite v ≡ check_typed type_float enum check v
unfolding check_typed
float-agrees enum check (float x) = refl
float-agrees enum check v = refl

texts-agree :
    (enum : List Str) (items : Values)
    → every_item (accepts (string_node enum)) items ≡ check_texts enum items
unfolding accepts check_texts
texts-agree enum none_left = refl
texts-agree enum (item (text t) rest) =
    ground (arith, one_of-check_enum enum t, texts-agree enum rest)
texts-agree enum (item v rest) = refl

every_item-cong :
    (p q : Value → Bool) (items : Values)
    → ((v : Value) → plain v ≡ true → p v ≡ q v)
    → plain_items items ≡ true
    → every_item p items ≡ every_item q items
unfolding plain_items
every_item-cong p q none_left h ok = refl
every_item-cong p q (item v rest) h ok = ground (arith, h v, every_item-cong p q rest h)

pub bool-agrees :
    (enum : List Str) (check : Fields → Bool) (v : Value)
    → accepts boolean_node v ≡ check_typed type_bool enum check v
unfolding accepts check_typed
bool-agrees enum check (boolean b) = refl
bool-agrees enum check v = refl

pub list-agrees :
    (enum : List Str) (check : Fields → Bool) (v : Value)
    → on_array (accepts (string_node enum)) v ≡ check_typed type_string_list enum check v
unfolding check_typed
list-agrees enum check (array items) = texts-agree enum items
list-agrees enum check v = refl

pub record-agrees :
    (test check : Fields → Bool) (v : Value)
    → ((r : Fields) → plain_fields r ≡ true → test r ≡ check r)
    → plain v ≡ true
    → on_object test v ≡ on_record check v
unfolding plain
record-agrees test check (object r) h p = h r p
record-agrees test check v h p = refl

pub records-agree :
    (enum : List Str) (test check : Fields → Bool) (v : Value)
    → ((r : Fields) → plain_fields r ≡ true → test r ≡ check r)
    → plain v ≡ true
    → on_array (on_object test) v ≡ check_typed type_record_list enum check v
unfolding plain check_typed
records-agree enum test check (array items) h p =
    every_item-cong (on_object test) (on_record check) items (λ v q. record-agrees test check v h q)
      p
records-agree enum test check v h p = refl
