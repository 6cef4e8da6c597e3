-- ===== src/Contract/Kinds.antt =====
-- pkg/contract/capability.go: the names and the parsers of effects, field types and subject kinds.
use atenea.Prelude.{List, [], ◌∷◌, Option, lookup}
use atenea.Prelude.Str.{Str, codes}
use atenea.Contract.Capability.{
  Effect, effect_read, effect_write, effect_external, effect_process, effect_device, FieldType,
  type_string, type_string_list, type_int, type_float, type_bool, type_record, type_record_list,
  SubjectKind, subject_none, subject_url_host,
}

unfoldable pub effect_string : Effect → Str
effect_string effect_read = codes "read"
effect_string effect_write = codes "write"
effect_string effect_external = codes "external"
effect_string effect_process = codes "process"
effect_string effect_device = codes "device"

abbrev pub effect_by_name : List (Str × Effect)
effect_by_name =
    (codes "read", effect_read)
    ∷ (codes "write", effect_write)
    ∷ (codes "external", effect_external)
    ∷ (codes "process", effect_process)
    ∷ (codes "device", effect_device)
    ∷ []

-- `none` is the `invalid_input` failure, here and below.
unfoldable pub parse_effect : Str → Option Effect
parse_effect s = lookup s effect_by_name

unfoldable pub field_type_string : FieldType → Str
field_type_string type_string = codes "string"
field_type_string type_string_list = codes "string_list"
field_type_string type_int = codes "int"
field_type_string type_float = codes "float"
field_type_string type_bool = codes "bool"
field_type_string type_record = codes "record"
field_type_string type_record_list = codes "record_list"

abbrev pub type_by_name : List (Str × FieldType)
type_by_name =
    (codes "string", type_string)
    ∷ (codes "string_list", type_string_list)
    ∷ (codes "int", type_int)
    ∷ (codes "float", type_float)
    ∷ (codes "bool", type_bool)
    ∷ (codes "record", type_record)
    ∷ (codes "record_list", type_record_list)
    ∷ []

unfoldable pub parse_field_type : Str → Option FieldType
parse_field_type s = lookup s type_by_name

unfoldable pub subject_kind_string : SubjectKind → Str
subject_kind_string subject_none = []
subject_kind_string subject_url_host = codes "url_host"

-- The table that the loop of `ParseSubjectKind` goes through, whose names all differ.
abbrev pub subject_kind_names : List (Str × SubjectKind)
subject_kind_names = ([], subject_none) ∷ (codes "url_host", subject_url_host) ∷ []

unfoldable pub parse_subject_kind : Str → Option SubjectKind
parse_subject_kind s = lookup s subject_kind_names
