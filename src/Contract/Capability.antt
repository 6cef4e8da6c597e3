-- ===== src/Contract/Capability.antt =====
-- pkg/contract/capability.go: effects, fields and capabilities. The enumerations are `uint8` in the
-- source; values past the named ones, which every parser refuses, are left out.
use atenea.Prelude.{ℕ, Bool, true, false, ◌==◌, List, any}
use atenea.Prelude.Str.{Str}

pub data Effect : Type 0 where
  effect_read effect_write effect_external effect_process effect_device : Effect

abbrev pub effect_index : Effect → ℕ
effect_index effect_read = 0
effect_index effect_write = 1
effect_index effect_external = 2
effect_index effect_process = 3
effect_index effect_device = 4

-- `slices.Contains` on effects.
abbrev pub causes : Effect → List Effect → Bool
causes e = any (λ f. effect_index f == effect_index e)

pub data FieldType : Type 0 where
  type_string type_string_list type_int type_bool type_record type_record_list type_float :
      FieldType

abbrev pub is_int : FieldType → Bool
is_int type_int = true
is_int _ = false

pub data SubjectKind : Type 0 where
  subject_none subject_url_host : SubjectKind

-- A field is `declare name type required summary fields enum`.
mutual
  pub data Field : Type 0 where
    declare : Str → FieldType → Bool → Str → FieldList → List Str → Field

  pub data FieldList : Type 0 where
    no_more : FieldList
    more : Field → FieldList → FieldList

pub record Version : Type 0 where
  pub major : ℕ
  pub minor : ℕ
  pub patch : ℕ

pub record Capability : Type 0 where
  pub id : Str
  pub version : Version
  pub summary : Str
  pub semantics : Str
  pub inputs : FieldList
  pub outputs : FieldList
  pub effects : List Effect
  pub subject_from : Str
  pub subject_kind : SubjectKind
