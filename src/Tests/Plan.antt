-- ===== src/Tests/Plan.antt =====
-- Plans of steps: one with two waves behind a finished step, and one with a cycle.
use mathlib.Core.List.{Perm}
use atenea.Prelude.Float.{float_one}
use atenea.Prelude.Str.{Str, codes, str_eq, trim_space}
use atenea.Prelude.{◌≡◌, ◌≢◌, refl, true, List, [], ◌∷◌, ◌<◌, keep, length}
use atenea.Contract.Ids.{slug_id, capability_id}
use atenea.Contract.Implementation.{contains}
use atenea.Contract.Value.{end}
use atenea.Contract.Capability.{effect_read}
use atenea.Contract.Plan.{
  Step, Plan, index, steps_fit, all_needs_fit, needs_fit, validate_step, ready, mark_all, next_wave,
  insert_step, sort_steps, remaining, unfinished, layers, cycle, no_fuel, waves_from, layers_after,
}
use atenea.Contract.Plan.Layers.{layers_after-ends}
use atenea.Contract.Plan.Schedule.{all_of, Scheduled, layers_after-Scheduled}
use atenea.Contract.Plan.Cycle.{Caught, layers_after-Caught}

abbrev step : Str → List Str → Step
step id needs = record {
  id = id;
  capability = codes "code.search";
  repository = codes "site";
  prefer = [];
  payload = end;
  needs = needs;
  permission = record { task = codes "look"; effects = effect_read ∷ []; budget_usd = float_one };
}

-- `c` needs both others, `b` needs `a`.
abbrev chain : Plan
chain = record {
  task = codes "look";
  steps =
      step (codes "c") (codes "a" ∷ codes "b" ∷ [])
      ∷ step (codes "b") (codes "a" ∷ [])
      ∷ step (codes "a") []
      ∷ [];
}

chain_waves :
    layers_after chain (codes "a" ∷ [])
    ≡ layers (
        (step (codes "b") (codes "a" ∷ []) ∷ [])
        ∷ (step (codes "c") (codes "a" ∷ codes "b" ∷ []) ∷ [])
        ∷ [])
unfolding layers_after index waves_from next_wave sort_steps insert_step mark_all ready trim_space
    steps_fit validate_step slug_id capability_id str_eq all_needs_fit needs_fit
chain_waves = refl

layers_after-Scheduled_example :
    Perm
      (all_of (
        (step (codes "b") (codes "a" ∷ []) ∷ [])
        ∷ (step (codes "c") (codes "a" ∷ codes "b" ∷ []) ∷ [])
        ∷ []))
      (keep (unfinished (codes "a" ∷ [])) chain.steps)
    × Scheduled (codes "a" ∷ []) (
        (step (codes "b") (codes "a" ∷ []) ∷ [])
        ∷ (step (codes "c") (codes "a" ∷ codes "b" ∷ []) ∷ [])
        ∷ [])
layers_after-Scheduled_example =
    layers_after-Scheduled chain (codes "a" ∷ [])
      ((step (codes "b") (codes "a" ∷ []) ∷ [])
        ∷ (step (codes "c") (codes "a" ∷ codes "b" ∷ []) ∷ [])
        ∷ [])
      chain_waves

layers_after-ends_example : layers_after chain (codes "a" ∷ []) ≢ no_fuel
layers_after-ends_example = layers_after-ends chain (codes "a" ∷ [])

-- Two steps that need one another.
abbrev ring : Plan
ring = record {
  task = codes "look";
  steps = step (codes "a") (codes "b" ∷ []) ∷ step (codes "b") (codes "a" ∷ []) ∷ [];
}

ring_cycle : layers_after ring [] ≡ cycle (codes "a" ∷ codes "b" ∷ [])
unfolding layers_after index waves_from next_wave sort_steps insert_step mark_all ready remaining
    trim_space steps_fit validate_step slug_id capability_id str_eq all_needs_fit needs_fit
ring_cycle = refl

layers_after-Caught_example :
    (0 < length (codes "a" ∷ codes "b" ∷ []))
    × ((id : Str)
        → contains id (codes "a" ∷ codes "b" ∷ []) ≡ true
        → Caught ring.steps [] (codes "a" ∷ codes "b" ∷ []) id)
layers_after-Caught_example = layers_after-Caught ring [] (codes "a" ∷ codes "b" ∷ []) ring_cycle
