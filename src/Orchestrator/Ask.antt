-- ===== src/Orchestrator/Ask.antt =====
-- internal/orchestrator/orchestrator.go and floor.go: one question, from its guards to its verdict.
-- The catalog's answer for a repository, whether a runner is attached, and whether the context is
-- over at the end are outside. A purse of one share gives all of it: `left / 1`.
pub mod Permit
use atenea.Prelude.Float.{Float64, float_lt, float_ne, float_zero}
use atenea.Prelude.Str.{Str, codes, trim_space}
use atenea.Prelude.{
  Bool, true, false, not, ◌&&◌, List, [], ◌∷◌, ◌++◌, Option, none, some, if◌then◌else◌,
}
use atenea.Contract.Value.{Fields}
use atenea.Contract.Capability.{Effect, effect_read, causes}
use atenea.Contract.Validate.{blank}
use atenea.Contract.Payload.{is_finite}
use atenea.Contract.Completeness.{Verdict}
use atenea.Contract.Plan.{Permission, grant, Step, Plan, Layering, layers, layers_after}
use atenea.Orchestrator.Closing.{
  FailureKind, failure_invalid_input, failure_not_found, failure_unavailable, Surroundings,
}
use atenea.Orchestrator.Loop.{Progress, Ending, Dispatch, refused, ended, dispatch, overall_verdict}

-- The grant that a dispatch starts from; `set` tells an empty one from none.
pub record Floor : Type 0 where
  pub effects : List Effect
  pub set : Bool

abbrev pub floor_of : List Effect → Floor
floor_of effects = record { effects = effects; set = true }

-- `Or`
abbrev pub floor_or : Floor → List Effect → List Effect
floor_or f standing = if not f.set then standing else f.effects

abbrev pub floor_allows : Floor → Effect → Bool
floor_allows f e = if not f.set then true else causes e f.effects

pub record Question : Type 0 where
  pub capability : Str
  pub repository : Str
  pub prefer : Str
  pub payload : Fields
  pub effects : List Effect
  pub budget_usd : Float64
  pub floor : Floor

-- What the agent holds: its standing grant and budget, whether a runner is attached, and the id of
-- the repository that the catalog finds.
pub record Agent : Type 0 where
  pub standing_effects : List Effect
  pub budget : Float64
  pub attached : Bool
  pub repository : Str → Option Str

-- `validGrant`. A NaN is not finite.
unfoldable pub valid_grant : Float64 → Bool
unfolding is_finite
valid_grant usd = not (float_lt usd float_zero) && is_finite usd

-- `cmp.Or(q.BudgetUSD, a.budget)`
abbrev pub ask_budget : Agent → Question → Float64
ask_budget a q = if float_ne q.budget_usd float_zero then q.budget_usd else a.budget

-- `newGrant(total).shares(1)[0]`
abbrev pub whole_share : Float64 → Float64
whole_share total = if float_lt float_zero total then total else float_zero

abbrev pub ask_text : Question → Str → Str
ask_text q id = trim_space q.capability ++ codes " in " ++ id

-- The step of a question in the repository `id`.
unfoldable pub ask_step : Agent → Question → Str → Step
unfolding grant
ask_step a q id = record {
  id = codes "ask-" ++ id;
  capability = trim_space q.capability;
  repository = id;
  prefer = q.prefer;
  payload = q.payload;
  needs = [];
  permission =
      grant
        (grant
          (record { task = ask_text q id; effects = effect_read ∷ []; budget_usd = float_zero })
          (floor_or q.floor a.standing_effects))
        q.effects;
}

unfoldable pub ask_plan : Agent → Question → Str → Plan
unfolding ask_step
ask_plan a q id = record { task = ask_text q id; steps = ask_step a q id ∷ [] }

-- `Validate`
unfoldable pub validate_plan : Plan → Bool
unfolding layers_after
validate_plan plan = elim (layers_after plan []) [ layers waves ↦ true | _ ↦ false ]

-- What `Ask` returns: an error before there is a run, a plan that is not valid, or the verdict with
-- what was closed and how it ended.
pub data Asked : Type 0 where
  ask_refused : FailureKind → Asked
  invalid_plan : Asked
  asked : Verdict → Progress → Ending → Asked

abbrev pub asked_of : (stopped : Bool) → Dispatch → Asked
asked_of stopped (refused l) = invalid_plan
asked_of stopped (ended p ending) = asked (overall_verdict p.closed stopped) p ending

-- The purse of a question has one step to share with.
abbrev pub with_budget : Agent → Question → Surroundings → Surroundings
with_budget a q env = record env { share = λ i. whole_share (ask_budget a q) }

-- `Ask` behind its guards.
unfoldable pub ask_repository : Agent → Surroundings → (stopped : Bool) → Question → Str → Asked
unfolding validate_plan ask_plan dispatch
ask_repository a env stopped q id =
    let plan = ask_plan a q id in
    if validate_plan plan
    then asked_of stopped (dispatch (with_budget a q env) plan (codes "ask") [] [] [])
    else invalid_plan

unfoldable pub ask : Agent → Surroundings → (stopped : Bool) → Question → Asked
unfolding valid_grant ask_repository
ask a env stopped q =
    if blank q.capability
    then ask_refused failure_invalid_input
    else if blank q.repository
    then ask_refused failure_invalid_input
    else if not (valid_grant q.budget_usd)
    then ask_refused failure_invalid_input
    else if not a.attached
    then ask_refused failure_unavailable
    else elim (a.repository q.repository) [
      | none ↦ ask_refused failure_not_found
      | some id ↦ ask_repository a env stopped q id
    ]
