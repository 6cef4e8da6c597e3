-- ===== src/Registry.antt =====
-- internal/registry/registry.go: the catalog, its registrations and its lookups. A stored value is
-- copied deeply in the source, which a value need not be. `by_capability` gives a capability no
-- entry until it has an implementation, as `r.byCapability[id]` gives nil.
pub mod Distance
pub mod Observed
pub mod Index
pub mod Steps
pub mod Probes
pub mod Providers
use atenea.Prelude.Int.{ℤ}
use atenea.Prelude.Str.{Str, str_eq, str_lt}
use atenea.Prelude.{
  ℕ, Bool, true, false, not, ◌&&◌, List, [], ◌∷◌, ◌++◌, Option, none, some, if◌then◌else◌, map,
  lookup, insert,
}
use atenea.Contract.Enums.{scale_unspecified, health_unknown, scope_unspecified}
use atenea.Contract.Implementation.{Implementation, Repository, Health, Constraints, Sample, Cost}
use atenea.Prelude.Int.{pos}
use atenea.Prelude.Float.{float_zero}
use atenea.Contract.Capability.{
  Capability, FieldType, is_int, Field, FieldList, declare, no_more, more,
}
use atenea.Contract.Validate.{validate_capability, validate_implementation, validate_repository}

-- The kinds of failure that the catalog reports.
pub data Refusal : Type 0 where
  invalid_input not_found unavailable permission_denied : Refusal

pub data Answer (A : Type 0) : Type 0 where
  answered : A → Answer A
  refused : Refusal → Answer A

pub record Registry : Type 0 where
  pub capabilities : List (Str × Capability)
  pub implementers : List (Str × Implementation)
  pub repositories : List (Str × Repository)
  pub by_capability : List (Str × List Str)
  pub observed : List (Str × List (Str × Health))

-- `New`
abbrev pub empty : Registry
empty = record {
  capabilities = [];
  implementers = [];
  repositories = [];
  by_capability = [];
  observed = [];
}

abbrev pub known : {V : Type 0} → Str → List (Str × V) → Bool
known k m = elim (lookup k m) [ none ↦ false | some v ↦ true ]

unfoldable pub store_capability : Registry → Capability → Registry
store_capability r c = record {
  capabilities = insert c.id c r.capabilities;
  implementers = r.implementers;
  repositories = r.repositories;
  by_capability = r.by_capability;
  observed = r.observed;
}

unfoldable pub add_capability : Registry → Capability → Answer Registry
add_capability r c =
    if not (validate_capability c)
    then refused invalid_input
    else if known c.id r.capabilities
    then refused invalid_input
    else answered (store_capability r c)

unfoldable pub input_named : FieldList → Str → Option FieldType
input_named no_more name = none
input_named (more (declare n type required summary fields enum) rest) name =
    if str_eq n name then some type else input_named rest name

-- Every bound is on an integer input.
unfoldable pub bounds_fit : FieldList → List (Str × ℤ) → Bool
bounds_fit inputs [] = true
bounds_fit inputs ((name, bound) ∷ rest) =
    elim (input_named inputs name) [ none ↦ false | some type ↦ is_int type ]
    && bounds_fit inputs rest

-- `slices.Sort`: whichever way it sorts, strings have one sorted order.
unfoldable pub insert_id : Str → List Str → List Str
insert_id x [] = x ∷ []
insert_id x (y ∷ ys) = if str_lt y x then y ∷ insert_id x ys else x ∷ y ∷ ys

unfoldable pub sort_ids : List Str → List Str
sort_ids [] = []
sort_ids (x ∷ xs) = insert_id x (sort_ids xs)

unfoldable pub providers : Str → List (Str × List Str) → List Str
providers c m = elim (lookup c m) [ none ↦ [] | some ids ↦ ids ]

unfoldable pub store_implementation : Registry → Implementation → Registry
store_implementation r i = record {
  capabilities = r.capabilities;
  implementers = insert i.id i r.implementers;
  repositories = r.repositories;
  by_capability =
      insert i.capability (sort_ids (providers i.capability r.by_capability ++ (i.id ∷ [])))
        r.by_capability;
  observed = r.observed;
}

unfoldable pub add_implementation : Registry → Implementation → Answer Registry
add_implementation r i =
    if not (validate_implementation i)
    then refused invalid_input
    else if known i.id r.implementers
    then refused invalid_input
    else elim (lookup i.capability r.capabilities) [
      | none ↦ refused invalid_input
      | some c ↦
          if bounds_fit c.inputs i.constraints.max_input
          then answered (store_implementation r i)
          else refused invalid_input
    ]

unfoldable pub store_repository : Registry → Repository → Registry
store_repository r p = record {
  capabilities = r.capabilities;
  implementers = r.implementers;
  repositories = insert p.id p r.repositories;
  by_capability = r.by_capability;
  observed = r.observed;
}

unfoldable pub add_repository : Registry → Repository → Answer Registry
add_repository r p =
    if not (validate_repository p)
    then refused invalid_input
    else if known p.id r.repositories
    then refused invalid_input
    else answered (store_repository r p)

-- `Implementation`
unfoldable pub find_implementation : Registry → Str → Answer Implementation
find_implementation r id = elim (lookup id r.implementers) [
  | none ↦ refused not_found
  | some i ↦ answered i
]

-- The zero `Implementation`, which a map gives for a missing key.
abbrev no_sample : Sample
no_sample = record { duration = pos 0; tokens = pos 0; peak_rss = pos 0 }

abbrev zero_cost : Cost
zero_cost = record {
  estimated = no_sample;
  measured = no_sample;
  samples = pos 0;
  attempts = pos 0;
  tool_version = [];
}

abbrev zero_constraints : Constraints
zero_constraints = record {
  languages = [];
  requires_vcs = false;
  min_scale = scale_unspecified;
  max_scale = scale_unspecified;
  max_input = [];
}

abbrev pub zero_health : Health
zero_health = record {
  state = health_unknown;
  score = float_zero;
  reason = [];
  raw = [];
  observed_at = 0;
}

abbrev pub zero_implementation : Implementation
zero_implementation = record {
  id = [];
  provider = [];
  config_digest = [];
  capability = [];
  constraints = zero_constraints;
  cost = zero_cost;
  health = zero_health;
  scope_guarantee = scope_unspecified;
}

-- `r.implementers[id]`
unfoldable pub implementation_at : Registry → Str → Implementation
implementation_at r id = elim (lookup id r.implementers) [ none ↦ zero_implementation | some i ↦ i ]

unfoldable pub implementations_for : Registry → Str → Answer (List Implementation)
implementations_for r c =
    if known c r.capabilities
    then answered (map (implementation_at r) (providers c r.by_capability))
    else refused not_found
