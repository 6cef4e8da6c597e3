-- ===== src/Contract/Validate.antt =====
-- pkg/contract: the `Validate` methods of capabilities, implementations and repositories. `true` is
-- the nil error, and `false` one of kind `invalid_input`.
use atenea.Prelude.{Bool, true, false, not, ◌==◌, ltb, ◌&&◌, ◌||◌, List, [], ◌∷◌, any}
use atenea.Prelude.Int.{ℤ, pos, ltb_ℤ}
use atenea.Prelude.Float.{Float64, float_lt, is_nan, float_zero, float_one}
use atenea.Prelude.Str.{Str, str_eq, trim_space}
use atenea.Contract.Enums.{Scale, scale_index}
use atenea.Contract.Ids.{field_name, capability_id, slug_id, first_segment, reserved_namespace}
use atenea.Contract.Implementation.{Implementation, Repository, contains, to_lower}
use atenea.Contract.Capability.{
  FieldType, type_string, type_string_list, type_record, type_record_list, FieldList, declare,
  no_more, more, Version, Capability,
}

abbrev pub is_empty : Str → Bool
is_empty [] = true
is_empty (c ∷ s) = false

abbrev pub blank : Str → Bool
blank s = is_empty (trim_space s)

abbrev pub nested : FieldType → Bool
nested type_record = true
nested type_record_list = true
nested _ = false

abbrev enumerable : FieldType → Bool
enumerable type_string = true
enumerable type_string_list = true
enumerable _ = false

abbrev no_fields : FieldList → Bool
no_fields no_more = true
no_fields (more f fs) = false

-- The loop over the values, with those seen.
unfoldable pub validate_values : List Str → List Str → Bool
validate_values seen [] = true
validate_values seen (v ∷ vs) =
    not (is_empty v) && not (contains v seen) && validate_values (v ∷ seen) vs

unfoldable pub validate_enum : FieldType → List Str → Bool
validate_enum type [] = true
validate_enum type (v ∷ vs) = enumerable type && validate_values [] (v ∷ vs)

-- The loop over the fields, with the names seen.
unfoldable pub validate_fields : List Str → FieldList → Bool
validate_fields seen no_more = true
validate_fields seen (more (declare name type required summary fields enum) rest) =
    field_name name
    && not (contains name seen)
    && not (nested type && no_fields fields)
    && (nested type || no_fields fields)
    && validate_enum type enum
    && (not (nested type) || validate_fields [] fields)
    && validate_fields (name ∷ seen) rest

abbrev no_version : Version → Bool
no_version v = (v.major == 0) && (v.minor == 0) && (v.patch == 0)

unfoldable pub validate_capability : Capability → Bool
validate_capability c =
    capability_id c.id
    && not (str_eq (first_segment c.id) reserved_namespace)
    && not (no_version c.version)
    && not (blank c.summary)
    && validate_fields [] c.inputs
    && validate_fields [] c.outputs

abbrev inverted : Scale → Scale → Bool
inverted lo hi =
    ltb 0 (scale_index lo) && ltb 0 (scale_index hi) && ltb (scale_index hi) (scale_index lo)

abbrev bad_language : Str → Bool
bad_language l = blank l || not (str_eq l (to_lower l))

abbrev unnamed : Str × ℤ → Bool
unnamed (name, bound) = blank name

unfoldable pub bad_score : Float64 → Bool
bad_score s = is_nan s || float_lt s float_zero || float_lt float_one s

-- A language is ASCII here: `strings.ToLower` changes letters outside ASCII too.
unfoldable pub validate_implementation : Implementation → Bool
validate_implementation i =
    slug_id i.id
    && not (str_eq (first_segment i.id) reserved_namespace)
    && slug_id i.provider
    && capability_id i.capability
    && not (any bad_language i.constraints.languages)
    && not (inverted i.constraints.min_scale i.constraints.max_scale)
    && not (any unnamed i.constraints.max_input)
    && not (ltb_ℤ i.cost.samples (pos 0))
    && not (bad_score i.health.score)

unfoldable pub validate_repository : Repository → Bool
validate_repository r = slug_id r.id && not (blank r.path) && not (any is_empty r.languages)
