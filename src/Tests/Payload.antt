-- ===== src/Tests/Payload.antt =====
-- A declared shape and a payload of it, and a number that the schema accepts alone.
use atenea.Prelude.Float.{float_one, units}
use atenea.Prelude.Int.{pos}
use atenea.Prelude.Str.{codes, str_eq}
use atenea.Prelude.{◌+◌, ◌≡◌, refl, ◌*◌, ◌^◌, true, false, [], ◌∷◌, arith}
use atenea.Contract.Value.{
  float, text, array, object, none_left, item, Fields, end, field, get_field, unit,
}
use atenea.Contract.Capability.{
  type_string, type_int, type_record_list, FieldList, declare, no_more, more,
}
use atenea.Contract.Ids.{field_name}
use atenea.Contract.Validate.{validate_fields, validate_enum, validate_values}
use atenea.Contract.Payload.{is_integer, is_finite, check_value, check_payload}
use atenea.Contract.Payload.Leaves.{plain_fields}
use atenea.Contract.Schema.{field_schema, object_schema, accepts}
use atenea.Contract.Payload.Agreement.{object_schema-check_payload, field_schema-too_large}

-- A required mode of a closed set, and a list of records with a line each.
abbrev hit : FieldList
hit = more (declare (codes "line") type_int true (codes "where") no_more []) no_more

abbrev query : FieldList
query =
    more
      (declare (codes "mode") type_string true (codes "how") no_more
        (codes "exact" ∷ codes "fuzzy" ∷ []))
      (more (declare (codes "hits") type_record_list false [] hit []) no_more)

abbrev request : Fields
request =
    field (codes "hits")
      (array (item (object (field (codes "line") (float float_one) end)) none_left))
      (field (codes "mode") (text (codes "fuzzy")) end)

request_passes : check_payload query request ≡ true
unfolding check_payload str_eq get_field
request_passes = refl

object_schema-check_payload_example :
    accepts (object_schema query) (object request) ≡ check_payload query request
unfolding validate_fields field_name validate_enum validate_values str_eq plain_fields is_finite
    is_integer
object_schema-check_payload_example = object_schema-check_payload query request refl refl

next_finite : is_finite (units (pos (unit * (2 ^ 63 + 2048)))) ≡ true
unfolding is_finite
next_finite = refl

-- 2^63 + 2048, the next float64 behind 2^63.
field_schema-too_large_example :
    (accepts
        (field_schema (declare (codes "line") type_int true (codes "where") no_more []))
        (float (units (pos (unit * (2 ^ 63 + 2048)))))
      ≡ true)
    × (check_value
          (declare (codes "line") type_int true (codes "where") no_more [])
          (float (units (pos (unit * (2 ^ 63 + 2048)))))
        ≡ false)
field_schema-too_large_example =
    field_schema-too_large (codes "line") true (codes "where") no_more [] (unit * (2 ^ 63 + 2048))
      refl (omega arith) next_finite
