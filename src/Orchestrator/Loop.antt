-- ===== src/Orchestrator/Loop.antt =====
-- internal/orchestrator/orchestrator.go: `dispatch`, `runWave`, and the verdict over all steps.
use atenea.Prelude.Int.{pos}
use atenea.Prelude.Float.{Float64}
use atenea.Prelude.Str.{Str, str_lt}
use atenea.Prelude.{
  ◌%◌, ◌^◌, ◌+◌, ℕ, suc, ◌+◌, Bool, true, false, not, ◌&&◌, ◌||◌, List, [], ◌∷◌, ◌++◌, map, Option,
  none, some, length, if◌then◌else◌,
}
use atenea.Contract.Implementation.{contains}
use atenea.Contract.Completeness.{
  is_ok, Verdict, verdict_unspecified, verdict_ok, verdict_failed, verdict_canceled,
}
use atenea.Contract.Plan.{Step, Plan, Layering, layers, layers_after}
use atenea.Orchestrator.Closing.{
  Answer, StepResult, Surroundings, blocked, is_canceled, is_canceled_verdict, run_step,
}

-- `step.Permission.BudgetUSD = shares[i]`
abbrev pub with_share : Float64 → Step → Step
with_share usd s = record s { permission = record (s.permission) { budget_usd = usd } }

unfoldable pub run_wave : Surroundings → ℕ → List Step → List StepResult
unfolding run_step
run_wave env i wave = map (λ s. run_step env i (with_share (env.share i) s)) wave

-- `blockedBy`, over the needs of a step.
unfoldable pub blocked_by : List Str → List Str → Option Str
blocked_by failed [] = none
blocked_by failed (need ∷ needs) =
    if contains need failed then some need else blocked_by failed needs

abbrev pub no_answer : Answer
no_answer = record {
  outcome = record {
    evidence = [];
    result = none;
    verdict = verdict_unspecified;
    out_of_scope = pos 0;
  };
  cache_hit = false;
  coalesced = false;
  duration = 0;
  tokens = 0;
  dispatched = false;
  error = none;
}

abbrev pub blocked_result : Step → Str → StepResult
blocked_result s culprit = record {
  step = s;
  phase = [];
  answer = no_answer;
  review = record {
    child = verdict_unspecified;
    parent = verdict_failed;
    reason = blocked culprit;
    disagreed = false;
  };
}

-- The steps of a wave that are blocked, closed, and those that are not.
unfoldable pub blocked_steps : List Str → List Step → List StepResult
unfolding blocked_by
blocked_steps failed [] = []
blocked_steps failed (s ∷ wave) =
    let rest = blocked_steps failed wave in
    elim (blocked_by failed s.needs) [
      | none ↦ rest
      | some culprit ↦ blocked_result s culprit ∷ rest
    ]

unfoldable pub runnable : List Str → List Step → List Step
unfolding blocked_by
runnable failed [] = []
runnable failed (s ∷ wave) =
    let rest = runnable failed wave in
    elim (blocked_by failed s.needs) [ none ↦ s ∷ rest | some culprit ↦ rest ]

unfoldable pub insert_result : StepResult → List StepResult → List StepResult
insert_result r [] = r ∷ []
insert_result r (q ∷ done) =
    let rest = insert_result r done in if str_lt q.step.id r.step.id then q ∷ rest else r ∷ q ∷ done

unfoldable pub sort_results : List StepResult → List StepResult
unfolding insert_result
sort_results [] = []
sort_results (r ∷ done) = insert_result r (sort_results done)

-- What a wave leaves, in the order of the ids.
unfoldable pub wave_results : Surroundings → ℕ → List Str → List Step → List StepResult
unfolding blocked_steps run_wave runnable sort_results
wave_results env i failed wave =
    sort_results (blocked_steps failed wave ++ run_wave env i (runnable failed wave))

-- `step.Dispatched && countsAsProviderSample(...)`
abbrev pub counts : StepResult → Bool
counts r =
    r.answer.dispatched
    && (not (r.answer.cache_hit || r.answer.coalesced)
        && not (elim r.answer.error [ none ↦ false | some kind ↦ is_canceled kind ]))

-- The loop's state; `recorded` has the steps on the record of the run.
pub record Progress : Type 0 where
  pub failed : List Str
  pub closed : List StepResult
  pub measured : List StepResult
  pub recorded : List StepResult
  pub spent : ℕ × ℕ

-- Duration and tokens, as the 64 bits of an `int`.
abbrev pub add_spent : StepResult → ℕ × ℕ → ℕ × ℕ
add_spent r (duration, tokens) =
    ((duration + r.answer.duration) % 2 ^ 64, (tokens + r.answer.tokens) % 2 ^ 64)

-- `totalSpent`, from what is spent so far.
unfoldable pub total_from : ℕ × ℕ → List StepResult → ℕ × ℕ
total_from spent [] = spent
total_from spent (r ∷ steps) = total_from (add_spent r spent) steps

unfoldable pub total_spent : List StepResult → ℕ × ℕ
unfolding total_from
total_spent steps = total_from (0, 0) steps

abbrev pub failed_with_step : StepResult → List Str → List Str
failed_with_step r failed = if is_ok r.review.parent then failed else r.step.id ∷ failed

unfoldable pub close_step : Str → Progress → StepResult → Progress
close_step phase p r =
    let q = record r { phase = phase } in
    record {
      failed = failed_with_step r p.failed;
      closed = p.closed ++ q ∷ [];
      measured = if counts r then p.measured ++ q ∷ [] else p.measured;
      recorded = p.recorded ++ q ∷ [];
      spent = add_spent r p.spent;
    }

-- The inner loop: `false` where the record is not written.
unfoldable pub close_steps : Surroundings → Str → Progress → List StepResult → Progress × Bool
unfolding close_step
close_steps env phase p [] = (p, true)
close_steps env phase p (r ∷ done) =
    let q = close_step phase p r in
    let rest = close_steps env phase q done in
    if env.saved (length q.recorded) then rest else (q, false)

-- How a dispatch ends: every wave is closed, the context is over, or the record is not written.
pub data Ending : Type 0 where
  complete context_over not_saved : Ending

unfoldable pub dispatch_waves :
    Surroundings → Str → ℕ → Progress → List (List Step) → Progress × Ending
unfolding wave_results close_steps
dispatch_waves env phase i p [] = (p, complete)
dispatch_waves env phase i p (wave ∷ waves) =
    let (q, written) = close_steps env phase p (wave_results env i p.failed wave) in
    let rest = dispatch_waves env phase (suc i) q waves in
    if env.over i then (p, context_over) else if written then rest else (q, not_saved)

abbrev pub ids_of : List StepResult → List Str
ids_of = map (λ r. r.step.id)

-- The ids of the steps that did not pass, the last one first.
unfoldable pub failed_before : List Str → List StepResult → List Str
failed_before failed [] = failed
failed_before failed (r ∷ steps) = failed_before (failed_with_step r failed) steps

abbrev pub starting_progress : List StepResult → List StepResult → Progress
starting_progress steps recorded = record {
  failed = failed_before [] steps;
  closed = [];
  measured = [];
  recorded = recorded;
  spent = (0, 0);
}

-- What `dispatch` returns: the refusal of the plan, or the progress and the ending.
pub data Dispatch : Type 0 where
  refused : Layering → Dispatch
  ended : Progress → Ending → Dispatch

-- `dispatch` behind `LayersAfter`.
unfoldable pub dispatch_layers : Surroundings → Str → Progress → Layering → Dispatch
unfolding dispatch_waves
dispatch_layers env phase p (layers waves) =
    let (q, ending) = dispatch_waves env phase 0 p waves in ended q ending
dispatch_layers env phase p other = refused other

unfoldable pub dispatch :
    Surroundings → Plan → Str → List StepResult → List StepResult → List Str → Dispatch
unfolding dispatch_layers
dispatch env plan phase steps recorded already_ok =
    dispatch_layers env phase (starting_progress steps recorded)
      (layers_after plan (ids_of steps ++ already_ok))

-- `overallVerdict`, with whether the run was stopped or some step was canceled so far.
unfoldable pub verdict_from : Bool → Bool → List StepResult → Verdict
verdict_from canceled none_ran [] =
    if canceled then verdict_canceled else if none_ran then verdict_failed else verdict_ok
verdict_from canceled none_ran (r ∷ steps) =
    let parent = r.review.parent in
    let rest = verdict_from (canceled || is_canceled_verdict parent) false steps in
    if is_ok parent || is_canceled_verdict parent then rest else verdict_failed

unfoldable pub overall_verdict : List StepResult → Bool → Verdict
unfolding verdict_from
overall_verdict steps stopped = verdict_from stopped true steps
