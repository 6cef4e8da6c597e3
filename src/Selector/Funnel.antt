-- ===== src/Selector/Funnel.antt =====
-- internal/selector/selector.go: the gates of the funnel, `fits`, `answers`, reach and health, the
-- stages that apply them to a list of candidates, and `Eligible`.
pub mod Survivors
use atenea.Prelude.Int.{ℤ, ltb_ℤ}
use atenea.Prelude.Str.{Str, codes, str_eq}
use atenea.Prelude.{
  ℕ, Bool, true, false, not, ◌==◌, ltb, ◌&&◌, ◌||◌, List, [], ◌∷◌, ◌++◌, Option, none, some, map,
  if◌then◌else◌, lookup,
}
use atenea.Contract.Enums.{Scale, scale_index, health_unknown, vcs_index}
use atenea.Contract.Implementation.{
  Implementation, Repository, Health, Constraints, usable, stale, speaks_any, contains,
}
use atenea.Contract.Value.{Fields, get_field, as_int}
use atenea.Selector.Types.{
  Request, Reason, speaks, needs_vcs, needs_bigger, needs_smaller, bounded_input, not_attached,
  repository_scope, unhealthy, reported_down, Drop, Stage, StageName, constraints, reach, health,
}

abbrev pub ids : List Implementation → List Str
ids = map (λ i. i.id)

abbrev specified : Scale → Bool
specified s = ltb 0 (scale_index s)

-- The two bounds on the size of a classified repository.
unfoldable pub fits_scale : Constraints → Scale → Option Reason
fits_scale c s =
    if specified c.min_scale && ltb (scale_index s) (scale_index c.min_scale)
    then some (needs_bigger c.min_scale s)
    else if specified c.max_scale && ltb (scale_index c.max_scale) (scale_index s)
    then some (needs_smaller c.max_scale s)
    else none

-- `none` is the source's `true`, and a reason its `false`.
unfoldable pub fits : Implementation → Repository → Option Reason
unfolding fits_scale
fits i r =
    let c = i.constraints in
    if not (speaks_any r c.languages)
    then some (speaks c.languages r.languages)
    else if c.requires_vcs && (vcs_index r.vcs == 2)
    then some needs_vcs
    else if specified r.scale
    then fits_scale c r.scale
    else none

-- One turn of the loop of `answers`: whether the request asks for more than the bound.
unfoldable pub exceeds : Str → ℤ → Fields → Option ℤ
exceeds name bound payload = elim (get_field name payload) [
  | none ↦ none
  | some raw ↦ elim (as_int raw) [
    | none ↦ none
    | some asked ↦ if ltb_ℤ bound asked then some asked else none
  ]
]

-- The loop ranges over a Go map: the list is the order in which it is visited.
unfoldable pub answers_from : List (Str × ℤ) → Fields → Option Reason
answers_from [] payload = none
answers_from ((name, bound) ∷ rest) payload = elim (exceeds name bound payload) [
  | some asked ↦ some (bounded_input name bound asked)
  | none ↦ answers_from rest payload
]

unfoldable pub answers : Implementation → Fields → Option Reason
answers i payload = answers_from i.constraints.max_input payload

-- What the constraint stage says of one candidate.
unfoldable pub constraint_gate : Request → Implementation → Option Drop
constraint_gate req i = elim (fits i req.repository) [
  | some r ↦ some (record { implementation = i.id; reason = r; raw = [] })
  | none ↦ elim (answers i req.payload) [
    | some r ↦ some (record { implementation = i.id; reason = r; raw = [] })
    | none ↦ none
  ]
]

-- The reason of a candidate that nothing attached can execute here. An empty explanation counts as
-- none.
unfoldable pub reach_reason : Request → Implementation → Reason
reach_reason req i = elim (lookup i.id req.unreachable) [
  | none ↦ not_attached
  | some scoped ↦ if str_eq scoped [] then not_attached else repository_scope scoped
]

unfoldable pub reach_gate : Request → Implementation → Option Drop
reach_gate req i =
    if contains i.id req.reachable
    then none
    else some (record { implementation = i.id; reason = reach_reason req i; raw = [] })

-- A stale observation becomes unknown before it is judged.
unfoldable pub refresh : ℕ → ℤ → Implementation → Implementation
refresh now stale_after i =
    if stale now i.health now stale_after
    then record i {
      health = record i.health {
        state = health_unknown;
        reason = codes "health observation expired; next dispatch may re-probe it";
        raw = [];
      };
    }
    else i

unfoldable pub health_reason : Health → Reason
health_reason h = if str_eq h.reason [] then reported_down else unhealthy h.reason

unfoldable pub health_gate : Implementation → Option Drop
health_gate i =
    if usable i.health
    then none
    else some
        (record { implementation = i.id; reason = health_reason i.health; raw = i.health.raw })

-- The loop that the three stages share: `prepare` is what it does to a candidate first, and `gate`
-- its tests. The result is the list kept and the drops, in order.
unfoldable pub sift :
    (Implementation → Implementation)
    → (Implementation → Option Drop)
    → List Implementation
    → List Implementation × List Drop
sift prepare gate [] = ([], [])
sift prepare gate (i ∷ rest) =
    let (kept, dropped) = sift prepare gate rest in
    elim (gate (prepare i)) [ none ↦ (prepare i ∷ kept, dropped) | some d ↦ (kept, d ∷ dropped) ]

abbrev staged :
    StageName → List Implementation → List Implementation × List Drop → List Implementation × Stage
staged name candidates (kept, dropped) = (
  kept,
  record {
    name = name;
    input = ids candidates;
    output = ids kept;
    dropped = dropped;
    details = [];
  },
)

unfoldable pub filter_constraints : Request → List Implementation → List Implementation × Stage
filter_constraints req candidates =
    staged constraints candidates (sift (λ i. i) (constraint_gate req) candidates)

unfoldable pub filter_reach : Request → List Implementation → List Implementation × Stage
filter_reach req candidates = staged reach candidates (sift (λ i. i) (reach_gate req) candidates)

unfoldable pub filter_health : ℕ → ℤ → List Implementation → List Implementation × Stage
filter_health now stale_after candidates =
    staged health candidates (sift (refresh now stale_after) health_gate candidates)

-- `Eligible`: `none` is its `true`. `now` is the clock it reads.
unfoldable pub eligible : ℕ → ℤ → Request → Implementation → Option Reason
eligible now stale_after req i = elim (fits i req.repository) [
  | some r ↦ some r
  | none ↦ elim (answers i req.payload) [
    | some r ↦ some r
    | none ↦
        if not (contains i.id req.reachable)
        then some (reach_reason req i)
        else if stale now i.health now stale_after
        then none
        else if not (usable i.health)
        then some (health_reason i.health)
        else none
  ]
]
