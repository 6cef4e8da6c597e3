-- ===== src/Contract/Plan.antt =====
-- pkg/contract/workflow.go: permissions, steps, and the plan of steps with its waves. `true` is the
-- nil error. An effect past the named ones, which `Permission.Validate` refuses, is not represented.
-- `slices.SortFunc` is modelled by insertion: the ids of a wave differ, so the sorted list is one.
pub mod Sort
pub mod Waves
pub mod Layers
pub mod Schedule
pub mod Cycle
use atenea.Prelude.Float.{Float64, float_lt, float_zero}
use atenea.Prelude.Str.{Str, str_eq, str_lt}
use atenea.Prelude.{
  ℕ, zero, suc, Bool, true, false, not, ◌&&◌, leb, List, [], ◌∷◌, ◌++◌, map, any, keep, length,
  if◌then◌else◌,
}
use atenea.Contract.Ids.{slug_id, capability_id}
use atenea.Contract.Capability.{Effect, causes}
use atenea.Contract.Implementation.{contains}
use atenea.Contract.Validate.{blank}
use atenea.Contract.Value.{Fields}
use atenea.Contract.Payload.{is_finite}

-- `realMoney` of charge.go. A NaN is not finite.
unfoldable pub real_money : Float64 → Bool
unfolding is_finite
real_money amount = not (float_lt amount float_zero) && is_finite amount

pub record Permission : Type 0 where
  pub task : Str
  pub effects : List Effect
  pub budget_usd : Float64

unfoldable pub funded : Permission → Bool
funded p = float_lt float_zero p.budget_usd

unfoldable pub allows : Permission → Effect → Bool
allows p e = causes e p.effects

-- The loop of `Grant`.
unfoldable pub grant_effects : List Effect → List Effect → List Effect
grant_effects [] held = held
grant_effects (e ∷ more) held = grant_effects more (if causes e held then held else held ++ e ∷ [])

unfoldable pub grant : Permission → List Effect → Permission
unfolding grant_effects
grant p more = record p { effects = grant_effects more p.effects }

unfoldable pub validate_permission : Permission → Bool
unfolding real_money
validate_permission p = not (blank p.task) && real_money p.budget_usd

pub record Step : Type 0 where
  pub id : Str
  pub capability : Str
  pub repository : Str
  pub prefer : Str
  pub payload : Fields
  pub needs : List Str
  pub permission : Permission

unfoldable pub validate_step : Step → Bool
unfolding validate_permission
validate_step s =
    slug_id s.id
    && capability_id s.capability
    && slug_id s.repository
    && validate_permission s.permission

pub record Plan : Type 0 where
  pub task : Str
  pub steps : List Step

abbrev pub step_ids : List Step → List Str
step_ids = map (λ s. s.id)

-- The first loop of `index`, with the ids seen.
unfoldable pub steps_fit : List Str → List Step → Bool
steps_fit seen [] = true
steps_fit seen (s ∷ steps) =
    validate_step s && (not (contains s.id seen) && steps_fit (s.id ∷ seen) steps)

-- The loop over the needs of the step `id`, with those seen.
unfoldable pub needs_fit : List Str → Str → List Str → List Str → Bool
needs_fit ids id seen [] = true
needs_fit ids id seen (need ∷ needs) =
    not (str_eq need id)
    && (contains need ids && (not (contains need seen) && needs_fit ids id (need ∷ seen) needs))

-- The second loop of `index`.
unfoldable pub all_needs_fit : List Str → List Step → Bool
all_needs_fit ids [] = true
all_needs_fit ids (s ∷ steps) = needs_fit ids s.id [] s.needs && all_needs_fit ids steps

abbrev no_steps : List Step → Bool
no_steps [] = true
no_steps (s ∷ steps) = false

-- `index`; the map that it builds is looked up by `contains` in the ids.
unfoldable pub index : Plan → Bool
index p =
    not (blank p.task)
    && (not (no_steps p.steps)
        && (steps_fit [] p.steps && all_needs_fit (step_ids p.steps) p.steps))

-- `ready`, over the ids that are done.
unfoldable pub ready : List Str → List Str → Bool
ready [] done = true
ready (need ∷ needs) done = contains need done && ready needs done

-- `done[id] = struct{}{}`: an id stands once.
abbrev pub mark : Str → List Str → List Str
mark id done = if contains id done then done else id ∷ done

unfoldable pub mark_all : List Str → List Str → List Str
mark_all [] done = done
mark_all (id ∷ ids) done = mark_all ids (mark id done)

abbrev pub unfinished : List Str → Step → Bool
unfinished done s = not (contains s.id done)

-- The steps of the next wave, in the order of the plan.
unfoldable pub next_wave : List Step → List Str → List Step
next_wave steps done = keep (λ s. unfinished done s && ready s.needs done) steps

unfoldable pub insert_step : Step → List Step → List Step
insert_step s [] = s ∷ []
insert_step s (t ∷ wave) =
    let rest = insert_step s wave in if str_lt t.id s.id then t ∷ rest else s ∷ t ∷ wave

unfoldable pub sort_steps : List Step → List Step
sort_steps [] = []
sort_steps (s ∷ wave) = insert_step s (sort_steps wave)

-- `remaining`, before the ids are sorted for the message.
unfoldable pub remaining : List Step → List Str → List Str
remaining steps done = step_ids (keep (unfinished done) steps)

-- What the loop ends in: its waves, or the ids caught in a cycle, or no fuel.
pub data Layering : Type 0 where
  layers : List (List Step) → Layering
  invalid : Layering
  cycle : List Str → Layering
  no_fuel : Layering

-- `layers = append(layers, wave)`, before what the later rounds append.
abbrev pub with_wave : List Step → Layering → Layering
with_wave wave (layers later) = layers (wave ∷ later)
with_wave wave other = other

-- The loop of `LayersAfter`. It ends where as many ids are done as there are steps.
unfoldable pub waves_from : ℕ → List Step → List Str → Layering
waves_from zero steps done = no_fuel
waves_from (suc fuel) steps done =
    if leb (length steps) (length done)
    then layers []
    else elim (sort_steps (next_wave steps done)) [
      | [] ↦ cycle (remaining steps done)
      | s ∷ wave ↦
          with_wave (s ∷ wave) (waves_from fuel steps (mark_all (step_ids (s ∷ wave)) done))
    ]

-- Whether every id reported finished is a step.
abbrev pub all_steps : List Str → List Str → Bool
all_steps ids [] = true
all_steps ids (id ∷ finished) = contains id ids && all_steps ids finished

unfoldable pub layers_after : Plan → List Str → Layering
unfolding waves_from
layers_after p finished =
    if index p && all_steps (step_ids p.steps) finished
    then waves_from (suc (length p.steps)) p.steps (mark_all finished [])
    else invalid
