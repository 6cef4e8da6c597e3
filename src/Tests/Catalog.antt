-- ===== src/Tests/Catalog.antt =====
-- Runs of the catalog, of the edit distance and of the guard on the screen.
use atenea.Prelude.Int.{pos}
use atenea.Prelude.Float.{Float64, nan, is_nan, float_one}
use atenea.Prelude.Str.{Str, codes, str_eq, trim_space}
use atenea.Prelude.{
  arith, ℕ, ◌≡◌, refl, ◌↔◌, ◌⊎◌, ◌≤◌, Bool, not, ◌&&◌, true, false, List, [], ◌∷◌, Option, none,
  some, map, lookup, In, insert,
}
use atenea.Contract.Enums.{scale_unspecified, vcs_present, health_alive, scope_unspecified}
use atenea.Contract.Ids.{field_name, capability_id, slug_id, first_segment}
use atenea.Contract.Implementation.{Implementation, Repository, Health}
use atenea.Contract.Capability.{
  Capability, Effect, effect_read, effect_write, effect_device, type_int, declare, no_more, more,
  subject_none,
}
use atenea.Contract.Validate.{
  validate_capability, validate_implementation, validate_repository, validate_fields, validate_enum,
  validate_values, bad_score,
}
use atenea.Registry.{
  Registry, Refusal, unavailable, answered, refused, not_found, empty, known, add_capability,
  store_capability, add_implementation, store_implementation, add_repository, store_repository,
  bounds_fit, input_named, implementations_for, zero_implementation,
}
use atenea.Registry.Distance.{levenshtein, cell, next_cells, next_row, fill, first_row, last_cell}
use atenea.Registry.Distance.Edits.{Edits}
use atenea.Registry.Distance.Rows.{levenshtein_lem}
use atenea.Registry.Observed.{
  StateFile, persist_observed, recorded, set_health, observe_health, dated, observed_health,
  with_health,
}
use atenea.Registry.Steps.{
  Reachable, fresh, after, registers, implements, mounts, IsValid, Reachable-IsValid,
}
use atenea.Registry.Providers.{implementations_for_lem}
use atenea.Registry.Probes.{set_health_lem, set_health-nan, replaced, RefusesNan, Other, Others}
use atenea.Taint.{passed, opened}
use atenea.Taint.Order.{NoActAfterLook, until_look, passed_lem}

-- A no-break space, a narrow one and an ideographic one go; a lone byte of one stays.
trim_space_run :
    trim_space (0xC2 ∷ 0xA0 ∷ 32 ∷ 65 ∷ 0xA0 ∷ 0xE2 ∷ 0x80 ∷ 0xAF ∷ 9 ∷ 0xE3 ∷ 0x80 ∷ 0x80 ∷ [])
    ≡ 65 ∷ 0xA0 ∷ []
unfolding trim_space
trim_space_run = refl

-- Two edits: `ser` to `sea` and `ach` to `rch`, two runes replaced.
levenshtein_run : levenshtein (codes "code.serach") (codes "code.search") ≡ 2
unfolding levenshtein cell next_cells next_row fill first_row last_cell
levenshtein_run = refl

levenshtein_lem_example :
    Edits (codes "serach") (codes "search") (levenshtein (codes "serach") (codes "search"))
    × ((n : ℕ)
        → Edits (codes "serach") (codes "search") n
        → levenshtein (codes "serach") (codes "search") ≤ n)
levenshtein_lem_example = levenshtein_lem (codes "serach") (codes "search")

abbrev capability : Str → List Effect → Capability
capability id effects = record {
  id = id;
  version = record { major = 1; minor = 0; patch = 0 };
  summary = codes "what it does";
  semantics = [];
  inputs = more (declare (codes "limit") type_int false [] no_more []) no_more;
  outputs = no_more;
  effects = effects;
  subject_from = [];
  subject_kind = subject_none;
}

abbrev look : Capability
look = capability (codes "desktop.inspect") (effect_read ∷ effect_device ∷ [])

abbrev click : Capability
click = capability (codes "desktop.click") (effect_write ∷ effect_device ∷ [])

passed_lem_example :
    NoActAfterLook (passed (opened false) (click ∷ look ∷ click ∷ look ∷ []))
    × (passed (opened false) (click ∷ look ∷ click ∷ look ∷ [])
        ≡ until_look (click ∷ look ∷ click ∷ look ∷ []))
    × (passed (opened true) (click ∷ look ∷ click ∷ look ∷ []) ≡ click ∷ look ∷ click ∷ look ∷ [])
passed_lem_example = passed_lem (click ∷ look ∷ click ∷ look ∷ [])

abbrev search : Capability
search = capability (codes "code.search") (effect_read ∷ [])

abbrev health : Float64 → Health
health score = record {
  state = health_alive;
  score = score;
  reason = [];
  raw = [];
  observed_at = 0;
}

abbrev ripgrep : Implementation
ripgrep = record {
  id = codes "ripgrep";
  provider = codes "omp";
  config_digest = [];
  capability = codes "code.search";
  constraints = record {
    languages = codes "go" ∷ [];
    requires_vcs = false;
    min_scale = scale_unspecified;
    max_scale = scale_unspecified;
    max_input = (codes "limit", pos 50) ∷ [];
  };
  cost = zero_implementation.cost;
  health = health float_one;
  scope_guarantee = scope_unspecified;
}

abbrev api : Repository
api = record {
  id = codes "api";
  path = codes "/srv/api";
  languages = codes "go" ∷ [];
  scale = scale_unspecified;
  vcs = vcs_present;
}

abbrev with_search : Registry
with_search = store_capability empty search

abbrev with_ripgrep : Registry
with_ripgrep = store_implementation with_search ripgrep

abbrev with_api : Registry
with_api = store_repository with_ripgrep api

search_added : add_capability empty search ≡ answered with_search
unfolding add_capability validate_capability validate_fields validate_enum validate_values
    field_name capability_id first_segment str_eq trim_space lookup
search_added = refl

ripgrep_added : add_implementation with_search ripgrep ≡ answered with_ripgrep
unfolding add_implementation validate_implementation slug_id capability_id first_segment str_eq
    trim_space lookup insert bounds_fit input_named bad_score store_capability
ripgrep_added = refl

api_added : add_repository with_ripgrep api ≡ answered with_api
unfolding add_repository validate_repository slug_id str_eq trim_space lookup store_implementation
    store_capability
api_added = refl

with_api-Reachable : Reachable with_api
with_api-Reachable =
    after (after (after fresh (registers search search_added)) (implements ripgrep ripgrep_added))
      (mounts api api_added)

Reachable-IsValid_example : IsValid with_api
Reachable-IsValid_example = Reachable-IsValid with_api with_api-Reachable

implementations_for_lem_example :
    ((known (codes "code.search") with_api.capabilities ≡ false)
      × (implementations_for with_api (codes "code.search") ≡ refused not_found))
    ⊎ ((is : List Implementation) × (implementations_for with_api (codes "code.search")
          ≡ answered is)
        × ((i : Implementation)
            → In i is ↔ (
                (lookup i.id with_api.implementers ≡ some i)
                × (i.capability ≡ codes "code.search"))))
implementations_for_lem_example =
    implementations_for_lem with_api (codes "code.search") with_api-Reachable

abbrev probed : Registry
probed = observe_health with_api (codes "api") (codes "ripgrep") (dated 7 (health float_one))

-- Stand-ins for `encoding/json`: one that encodes whatever holds no NaN.
abbrev without_nan : List (Str × Health) → Bool
without_nan [] = true
without_nan ((i, h) ∷ m) = not (is_nan h.score) && without_nan m

abbrev encodes : List (Str × List (Str × Health)) → Bool
encodes [] = true
encodes ((p, m) ∷ ms) = without_nan m && encodes ms

abbrev state_file : Option Refusal → StateFile
state_file failure = record {
  path = codes "/var/lib/atenea/state.json";
  encodes = encodes;
  failure = failure;
}

without_nan-lookup :
    (i : Str) (h : Health) (m : List (Str × Health))
    → lookup i m ≡ some h
    → h.score ≡ nan
    → without_nan m ≡ false
unfolding lookup
without_nan-lookup i h [] e hn = ground arith
without_nan-lookup i h ((j, g) ∷ m) e hn = ground (arith, without_nan-lookup i h m)

encodes-lookup :
    (p i : Str) (h : Health) (ms : List (Str × List (Str × Health)))
    → lookup i (elim (lookup p ms) [ none ↦ [] | some m ↦ m ]) ≡ some h
    → h.score ≡ nan
    → encodes ms ≡ false
unfolding lookup
encodes-lookup p i h [] e hn = ground arith
encodes-lookup p i h ((q, m) ∷ ms) e hn =
    ground (arith, without_nan-lookup i h m, encodes-lookup p i h ms)

state_file-RefusesNan : (failure : Option Refusal) → RefusesNan (state_file failure)
state_file-RefusesNan failure r p i h = encodes-lookup p i h r.observed

-- The disk is full: the observation stays, and the failure is returned.
ripgrep_probed :
    set_health 7
      (state_file (some unavailable))
      with_api
      (codes "api")
      (codes "ripgrep")
      (health float_one)
    ≡ recorded probed (some unavailable)
unfolding set_health persist_observed observe_health dated lookup insert str_eq store_repository
    store_implementation store_capability
ripgrep_probed = refl

set_health_lem_example :
    (observed_health probed (codes "api") (ripgrep ∷ [])
      ≡ map
          (replaced (codes "ripgrep") (dated 7 (health float_one)))
          (observed_health with_api (codes "api") (ripgrep ∷ [])))
    × ((q : Str)
        → str_eq (codes "api") q ≡ false
        → observed_health probed q (ripgrep ∷ []) ≡ observed_health with_api q (ripgrep ∷ []))
set_health_lem_example =
    set_health_lem 7 (state_file (some unavailable)) with_api probed (codes "api") (codes "ripgrep")
      (health float_one) (some unavailable) (ripgrep ∷ []) ripgrep_probed

ripgrep_known : known (codes "ripgrep") with_api.implementers ≡ true
unfolding lookup insert str_eq store_repository store_implementation store_capability
ripgrep_known = refl

api_known : known (codes "api") with_api.repositories ≡ true
unfolding lookup insert str_eq store_repository store_implementation store_capability
api_known = refl

has_path : str_eq (codes "/var/lib/atenea/state.json") [] ≡ false
unfolding str_eq
has_path = refl

set_health-nan_example :
    (s : Registry) × (set_health 7
        (state_file none)
        with_api
        (codes "api")
        (codes "ripgrep")
        (health nan)
      ≡ recorded s (some unavailable))
    × (observed_health s (codes "api") (ripgrep ∷ [])
        ≡ with_health (dated 7 (health nan)) ripgrep ∷ [])
    × (validate_implementation (with_health (dated 7 (health nan)) ripgrep) ≡ false)
    × ((t u : Registry) (e : Option Refusal)
        → Others (state_file none) (codes "api") (codes "ripgrep") s t
        → Other (state_file none) (codes "api") (codes "ripgrep") t u e
        → e ≡ some unavailable)
set_health-nan_example =
    set_health-nan 7 (state_file none) with_api (codes "api") (codes "ripgrep") (health nan) ripgrep
      has_path (state_file-RefusesNan none) ripgrep_known api_known refl refl
