-- ===== src/Registry/Observed.antt =====
-- internal/registry/registry.go: what probing found, `SetHealth`, `Observed` and `Observations`.
use atenea.Prelude.Str.{Str, str_eq}
use atenea.Prelude.Float.{float_lt, float_zero, float_one}
use atenea.Prelude.{
  ℕ, Bool, not, ◌||◌, ◌==◌, ltb, List, [], ◌∷◌, Option, none, some, if◌then◌else◌, map, lookup,
  insert,
}
use atenea.Contract.Enums.{rank}
use atenea.Contract.Implementation.{Implementation, Health}
use atenea.Registry.{Registry, Refusal, invalid_input, not_found, unavailable, known, sort_ids}

-- `now` is `time.Now().UTC()`.
unfoldable pub dated : ℕ → Health → Health
dated now h =
    if h.observed_at == 0
    then record {
      state = h.state;
      score = h.score;
      reason = h.reason;
      raw = h.raw;
      observed_at = now;
    }
    else h

abbrev pub observed_in : Str → Registry → List (Str × Health)
observed_in repository r = elim (lookup repository r.observed) [ none ↦ [] | some m ↦ m ]

unfoldable pub observe_health : Registry → Str → Str → Health → Registry
observe_health r repository implementation h = record {
  capabilities = r.capabilities;
  implementers = r.implementers;
  repositories = r.repositories;
  by_capability = r.by_capability;
  observed = insert repository (insert implementation h (observed_in repository r)) r.observed;
}

-- The file that keeps the observations: its path, empty where there is none; whether
-- `json.MarshalIndent` encodes a map of them; and the failure of the calls on the file system that
-- replace the file, where one of them fails.
pub record StateFile : Type 0 where
  pub path : Str
  pub encodes : List (Str × List (Str × Health)) → Bool
  pub failure : Option Refusal

-- The error that `persistLocked` returns.
unfoldable pub persist_observed : StateFile → Registry → Option Refusal
persist_observed f r =
    if str_eq f.path [] then none else if f.encodes r.observed then f.failure else some unavailable

-- What `SetHealth` does: it refuses the call and leaves the catalog, or it records the observation
-- in the catalog and returns the error of `persistLocked`, if any.
pub data Probed : Type 0 where
  rejected : Refusal → Probed
  recorded : Registry → Option Refusal → Probed

abbrev pub persisted : StateFile → Registry → Probed
persisted f r = recorded r (persist_observed f r)

unfoldable pub set_health : ℕ → StateFile → Registry → Str → Str → Health → Probed
set_health now f r repository implementation h =
    if float_lt h.score float_zero || float_lt float_one h.score
    then rejected invalid_input
    else if not (known implementation r.implementers)
    then rejected not_found
    else if not (known repository r.repositories)
    then rejected not_found
    else persisted f (observe_health r repository implementation (dated now h))

abbrev pub with_health : Health → Implementation → Implementation
with_health h i = record {
  id = i.id;
  provider = i.provider;
  config_digest = i.config_digest;
  capability = i.capability;
  constraints = i.constraints;
  cost = i.cost;
  health = h;
  scope_guarantee = i.scope_guarantee;
}

unfoldable pub overlay : List (Str × Health) → Implementation → Implementation
overlay m i = elim (lookup i.id m) [ none ↦ i | some h ↦ with_health h i ]

unfoldable pub observed_health : Registry → Str → List Implementation → List Implementation
observed_health r repository impls = elim (observed_in repository r) [
  | [] ↦ impls
  | e ∷ es ↦ map (overlay (e ∷ es)) impls
]

-- The worst observation so far and its repository.
abbrev pub worse : Option (Health × Str) → Str → Option Health → Option (Health × Str)
worse so_far repository none = so_far
worse none repository (some h) = some (h, repository)
worse (some (w, at)) repository (some h) =
    if ltb (rank w.state) (rank h.state) then some (h, repository) else some (w, at)

-- The loop over the repositories, sorted by id.
unfoldable pub worst_of : Registry → Str → Option (Health × Str) → List Str → Option (Health × Str)
worst_of r implementation so_far [] = so_far
worst_of r implementation so_far (p ∷ ps) =
    worst_of r implementation (worse so_far p (lookup implementation (observed_in p r))) ps

abbrev keys : {V : Type 0} → List (Str × V) → List Str
keys [] = []
keys ((k, v) ∷ m) = k ∷ keys m

unfoldable pub observations : Registry → Str → Option (Health × Str)
observations r implementation = worst_of r implementation none (sort_ids (keys r.observed))
