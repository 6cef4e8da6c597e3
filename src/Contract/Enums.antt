-- ===== src/Contract/Enums.antt =====
-- pkg/contract/implementation.go: the enumerations of a catalog, their names and their parsers.
-- Each is a `uint8` in the source; values past the named ones, which no code makes, are left out.
use atenea.Prelude.{
  ℕ, Bool, true, ◌≡◌, ◌==◌, List, [], ◌∷◌, Option, some, arith, if◌then◌else◌, lookup,
}
use atenea.Prelude.Str.{Str, codes, str_eq}

pub data Scale : Type 0 where
  scale_unspecified scale_small scale_medium scale_large : Scale

-- The number behind the constant, which `<` compares.
abbrev pub scale_index : Scale → ℕ
scale_index scale_unspecified = 0
scale_index scale_small = 1
scale_index scale_medium = 2
scale_index scale_large = 3

pub data Vcs : Type 0 where
  vcs_unspecified vcs_present vcs_absent : Vcs

pub data HealthState : Type 0 where
  health_unknown health_alive health_degraded health_down : HealthState

pub data ScopeGuarantee : Type 0 where
  scope_unspecified scope_filtered scope_confined : ScopeGuarantee

unfoldable pub scale_string : Scale → Str
scale_string scale_unspecified = []
scale_string scale_small = codes "small"
scale_string scale_medium = codes "medium"
scale_string scale_large = codes "large"

unfoldable pub vcs_string : Vcs → Str
vcs_string vcs_unspecified = []
vcs_string vcs_present = codes "present"
vcs_string vcs_absent = codes "absent"

unfoldable pub health_string : HealthState → Str
health_string health_unknown = codes "unknown"
health_string health_alive = codes "alive"
health_string health_degraded = codes "degraded"
health_string health_down = codes "down"

unfoldable pub scope_string : ScopeGuarantee → Str
scope_string scope_unspecified = []
scope_string scope_filtered = codes "filtered"
scope_string scope_confined = codes "confined"

abbrev pub scale_by_name : List (Str × Scale)
scale_by_name =
    ([], scale_unspecified)
    ∷ (codes "small", scale_small)
    ∷ (codes "medium", scale_medium)
    ∷ (codes "large", scale_large)
    ∷ []

abbrev pub vcs_by_name : List (Str × Vcs)
vcs_by_name =
    ([], vcs_unspecified) ∷ (codes "present", vcs_present) ∷ (codes "absent", vcs_absent) ∷ []

abbrev pub health_by_name : List (Str × HealthState)
health_by_name =
    (codes "unknown", health_unknown)
    ∷ (codes "alive", health_alive)
    ∷ (codes "degraded", health_degraded)
    ∷ (codes "down", health_down)
    ∷ []

abbrev pub scope_by_name : List (Str × ScopeGuarantee)
scope_by_name =
    ([], scope_unspecified)
    ∷ (codes "filtered", scope_filtered)
    ∷ (codes "confined", scope_confined)
    ∷ []

-- `none` is the `invalid_input` failure.
unfoldable pub parse_scale : Str → Option Scale
parse_scale s = lookup s scale_by_name

unfoldable pub parse_vcs : Str → Option Vcs
parse_vcs s = lookup s vcs_by_name

unfoldable pub parse_health_state : Str → Option HealthState
parse_health_state s = if str_eq s [] then some health_unknown else lookup s health_by_name

unfoldable pub parse_scope_guarantee : Str → Option ScopeGuarantee
parse_scope_guarantee s = lookup s scope_by_name

-- `HealthState.Rank`: lower is better.
unfoldable pub rank : HealthState → ℕ
rank health_alive = 0
rank health_degraded = 1
rank health_unknown = 2
rank health_down = 3

abbrev pub health_index : HealthState → ℕ
health_index health_unknown = 0
health_index health_alive = 1
health_index health_degraded = 2
health_index health_down = 3

-- `==` on two states.
abbrev pub state_eq : HealthState → HealthState → Bool
state_eq a b = health_index a == health_index b

pub state_eq→eq : (a b : HealthState) → state_eq a b ≡ true → a ≡ b
state_eq→eq a b h = ground arith

-- `Rank` tells the states apart.
pub rank_inj : (a b : HealthState) → rank a ≡ rank b → a ≡ b
unfolding rank
rank_inj a b h = ground arith

abbrev pub vcs_index : Vcs → ℕ
vcs_index vcs_unspecified = 0
vcs_index vcs_present = 1
vcs_index vcs_absent = 2
