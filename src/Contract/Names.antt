-- ===== src/Contract/Names.antt =====
-- pkg/contract/implementation.go and capability.go: names and parsers of the enumerations are inverse.
use mathlib.Core.Path.{subst}
use atenea.Prelude.{◌↔◌, ◌≢◌, ◌≡◌, refl, List, [], ◌∷◌, some, arith, lookup}
use atenea.Prelude.Str.{Str, str_eq, str_eq_iff}
use atenea.Contract.Enums.{
  Scale, scale_unspecified, scale_small, scale_medium, scale_large, Vcs, vcs_unspecified,
  vcs_present, vcs_absent, HealthState, health_unknown, health_alive, health_degraded, health_down,
  ScopeGuarantee, scope_unspecified, scope_filtered, scope_confined, scale_string, vcs_string,
  health_string, scope_string, parse_scale, parse_vcs, parse_health_state, parse_scope_guarantee,
  health_by_name,
}
use atenea.Contract.Capability.{
  Effect, effect_read, effect_write, effect_external, effect_process, effect_device, FieldType,
  type_string, type_string_list, type_int, type_float, type_bool, type_record, type_record_list,
  SubjectKind, subject_none, subject_url_host,
}
use atenea.Contract.Kinds.{
  effect_string, parse_effect, field_type_string, parse_field_type, subject_kind_string,
  parse_subject_kind,
}

parse-string_scale : (v : Scale) → parse_scale (scale_string v) ≡ some v
unfolding parse_scale scale_string lookup str_eq
parse-string_scale scale_unspecified = refl
parse-string_scale scale_small = refl
parse-string_scale scale_medium = refl
parse-string_scale scale_large = refl

parse-string_vcs : (v : Vcs) → parse_vcs (vcs_string v) ≡ some v
unfolding parse_vcs vcs_string lookup str_eq
parse-string_vcs vcs_unspecified = refl
parse-string_vcs vcs_present = refl
parse-string_vcs vcs_absent = refl

parse-string_health : (v : HealthState) → parse_health_state (health_string v) ≡ some v
unfolding parse_health_state health_string lookup str_eq
parse-string_health health_unknown = refl
parse-string_health health_alive = refl
parse-string_health health_degraded = refl
parse-string_health health_down = refl

parse-string_scope : (v : ScopeGuarantee) → parse_scope_guarantee (scope_string v) ≡ some v
unfolding parse_scope_guarantee scope_string lookup str_eq
parse-string_scope scope_unspecified = refl
parse-string_scope scope_filtered = refl
parse-string_scope scope_confined = refl

parse-string_effect : (v : Effect) → parse_effect (effect_string v) ≡ some v
unfolding parse_effect effect_string lookup str_eq
parse-string_effect effect_read = refl
parse-string_effect effect_write = refl
parse-string_effect effect_external = refl
parse-string_effect effect_process = refl
parse-string_effect effect_device = refl

parse-string_field_type : (v : FieldType) → parse_field_type (field_type_string v) ≡ some v
unfolding parse_field_type field_type_string lookup str_eq
parse-string_field_type type_string = refl
parse-string_field_type type_string_list = refl
parse-string_field_type type_int = refl
parse-string_field_type type_float = refl
parse-string_field_type type_bool = refl
parse-string_field_type type_record = refl
parse-string_field_type type_record_list = refl

parse-string_subject_kind : (v : SubjectKind) → parse_subject_kind (subject_kind_string v) ≡ some v
unfolding parse_subject_kind subject_kind_string lookup str_eq
parse-string_subject_kind subject_none = refl
parse-string_subject_kind subject_url_host = refl

-- A table whose entries stand under their own names finds only what has the name.
abbrev Named : {V : Type 0} → (V → Str) → List (Str × V) → Type 0
Named name [] = Unit
Named name ((k, v) ∷ table) = (name v ≡ k) × Named name table

Named-lookup :
    {V : Type 0} (name : V → Str) (s : Str) (v : V) (table : List (Str × V))
    → Named name table
    → lookup s table ≡ some v
    → name v ≡ s
unfolding lookup
Named-lookup name s v [] h e = cc
Named-lookup name s v ((k, w) ∷ table) h e =
    ground (arith, str_eq_iff k s, Named-lookup name s v table)

-- Each of the parsers of scales, version control, scopes, effects, field types, subject kinds and
-- health states reads back the name of every value, and reads no other text as that value, but for
-- the empty text, which is the unknown health state beside its name.
pub parse-names :
    ((v : Scale) (s : Str) → (parse_scale s ≡ some v) ↔ (scale_string v ≡ s))
    × ((v : Vcs) (s : Str) → (parse_vcs s ≡ some v) ↔ (vcs_string v ≡ s))
    × ((v : ScopeGuarantee) (s : Str) → (parse_scope_guarantee s ≡ some v) ↔ (scope_string v ≡ s))
    × ((v : Effect) (s : Str) → (parse_effect s ≡ some v) ↔ (effect_string v ≡ s))
    × ((v : FieldType) (s : Str) → (parse_field_type s ≡ some v) ↔ (field_type_string v ≡ s))
    × ((v : SubjectKind) (s : Str) → (parse_subject_kind s ≡ some v) ↔ (subject_kind_string v ≡ s))
    × ((v : HealthState) (s : Str)
        → s ≢ []
        → (parse_health_state s ≡ some v) ↔ (health_string v ≡ s))
    × (parse_health_state [] ≡ some health_unknown)
unfolding parse_scale parse_vcs parse_scope_guarantee parse_health_state scale_string vcs_string
    scope_string health_string parse_effect effect_string parse_field_type field_type_string
    parse_subject_kind subject_kind_string str_eq
parse-names = (
  λ v s. (
    Named-lookup scale_string s v _ (refl, (refl, (refl, (refl, tt)))),
    λ e. subst (λ t. parse_scale t ≡ some v) e (parse-string_scale v),
  ),
  λ v s. (
    Named-lookup vcs_string s v _ (refl, (refl, (refl, tt))),
    λ e. subst (λ t. parse_vcs t ≡ some v) e (parse-string_vcs v),
  ),
  λ v s. (
    Named-lookup scope_string s v _ (refl, (refl, (refl, tt))),
    λ e. subst (λ t. parse_scope_guarantee t ≡ some v) e (parse-string_scope v),
  ),
  λ v s. (
    Named-lookup effect_string s v _ (refl, (refl, (refl, (refl, (refl, tt))))),
    λ e. subst (λ t. parse_effect t ≡ some v) e (parse-string_effect v),
  ),
  λ v s. (
    Named-lookup field_type_string s v _ (refl, (refl, (refl, (refl, (refl, (refl, (refl, tt))))))),
    λ e. subst (λ t. parse_field_type t ≡ some v) e (parse-string_field_type v),
  ),
  λ v s. (
    Named-lookup subject_kind_string s v _ (refl, (refl, tt)),
    λ e. subst (λ t. parse_subject_kind t ≡ some v) e (parse-string_subject_kind v),
  ),
  λ v s named. (
    λ h.
        Named-lookup health_string s v health_by_name (refl, (refl, (refl, (refl, tt))))
          (ground (arith, str_eq_iff s [])),
    λ e. subst (λ t. parse_health_state t ≡ some v) e (parse-string_health v),
  ),
  refl,
)
