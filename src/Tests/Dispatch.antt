-- ===== src/Tests/Dispatch.antt =====
-- Dispatches of a plan of three steps: one where the first step fails, and one where all pass.
use mathlib.Core.List.{Perm}
use atenea.Prelude.Int.{pos}
use atenea.Prelude.Float.{float_zero, float_one}
use atenea.Prelude.Str.{Str, codes, str_eq, str_lt, trim_space}
use atenea.Prelude.{
  ◌≡◌, refl, Bool, true, false, List, [], ◌∷◌, none, some, keep, length, map, All, if◌then◌else◌,
}
use atenea.Contract.Ids.{slug_id, capability_id}
use atenea.Contract.Value.{end}
use atenea.Contract.Capability.{Capability, no_more, effect_read, subject_none}
use atenea.Contract.Completeness.{Verdict, verdict_ok, verdict_failed}
use atenea.Contract.Payload.{validate_output, check_payload}
use atenea.Contract.Plan.{
  Step, Plan, index, steps_fit, all_needs_fit, needs_fit, validate_step, ready, mark_all, next_wave,
  insert_step, sort_steps, unfinished, layers, waves_from, layers_after,
}
use atenea.Orchestrator.Closing.{Answer, Surroundings, run_step, review_of, judge}
use atenea.Orchestrator.Loop.{
  run_wave, blocked_by, blocked_steps, runnable, insert_result, sort_results, wave_results,
  Progress, close_step, close_steps, complete, dispatch_waves, failed_before, Dispatch, ended,
  dispatch_layers, dispatch, verdict_from, overall_verdict,
}
use atenea.Orchestrator.Ids.{plain, steps_of}
use atenea.Orchestrator.Order.{Follows, dispatch-Follows}
use atenea.Orchestrator.Complete.{Accounted, Undisturbed, dispatch-complete}
use atenea.Orchestrator.Approval.{Passed, approved-Passed}

abbrev pub search : Capability
search = record {
  id = codes "code.search";
  version = record { major = 1; minor = 0; patch = 0 };
  summary = codes "what it does";
  semantics = [];
  inputs = no_more;
  outputs = no_more;
  effects = effect_read ∷ [];
  subject_from = [];
  subject_kind = subject_none;
}

abbrev step : Str → List Str → Step
step id needs = record {
  id = id;
  capability = codes "code.search";
  repository = codes "site";
  prefer = [];
  payload = end;
  needs = needs;
  permission = record { task = codes "look"; effects = effect_read ∷ []; budget_usd = float_one };
}

-- `b` needs `a`; nothing needs `c`.
abbrev fork : Plan
fork = record {
  task = codes "look";
  steps = step (codes "b") (codes "a" ∷ []) ∷ step (codes "c") [] ∷ step (codes "a") [] ∷ [];
}

abbrev pub saying : Verdict → Answer
saying verdict = record {
  outcome = record { evidence = []; result = some end; verdict = verdict; out_of_scope = pos 0 };
  cache_hit = false;
  coalesced = false;
  duration = 5;
  tokens = 7;
  dispatched = true;
  error = none;
}

-- Every step passes, or `a` does not.
abbrev calm : (a_passes : Bool) → Surroundings
calm a_passes = record {
  capability = λ id. some search;
  answer = λ i s. saying (
      if str_eq s.id (codes "a")
      then if a_passes then verdict_ok else verdict_failed
      else verdict_ok);
  share = λ i. float_zero;
  over = λ i. false;
  saved = λ n. true;
}

abbrev outcome_of : Bool → Dispatch
outcome_of a_passes = dispatch (calm a_passes) fork (codes "ask") [] [] []

abbrev progress_of : Dispatch → Progress
progress_of (ended p ending) = p
progress_of _ = record { failed = []; closed = []; measured = []; recorded = []; spent = (0, 0) }

fork_waves :
    layers_after fork []
    ≡ layers (
        (step (codes "a") [] ∷ step (codes "c") [] ∷ [])
        ∷ (step (codes "b") (codes "a" ∷ []) ∷ [])
        ∷ [])
unfolding layers_after index waves_from next_wave sort_steps insert_step mark_all ready trim_space
    steps_fit validate_step slug_id capability_id str_eq all_needs_fit needs_fit str_lt
fork_waves = refl

outcome_of_ends : (b : Bool) → outcome_of b ≡ ended (progress_of (outcome_of b)) complete
unfolding dispatch dispatch_layers layers_after index waves_from next_wave sort_steps insert_step
    mark_all ready trim_space steps_fit validate_step slug_id capability_id str_eq all_needs_fit
    needs_fit str_lt dispatch_waves close_steps close_step wave_results blocked_steps blocked_by
    runnable run_wave run_step review_of judge validate_output check_payload insert_result
    sort_results failed_before
outcome_of_ends true = refl
outcome_of_ends false = refl

-- `b` is blocked where `a` fails, and `c` runs.
a_fails :
    map (λ r. r.review.parent) (progress_of (outcome_of false)).closed
    ≡ verdict_failed ∷ verdict_ok ∷ verdict_failed ∷ []
unfolding dispatch dispatch_layers layers_after index waves_from next_wave sort_steps insert_step
    mark_all ready trim_space steps_fit validate_step slug_id capability_id str_eq all_needs_fit
    needs_fit str_lt dispatch_waves close_steps close_step wave_results blocked_steps blocked_by
    runnable run_wave run_step review_of judge validate_output check_payload insert_result
    sort_results
a_fails = refl

only_two_measured : length (progress_of (outcome_of false)).measured ≡ 2
unfolding dispatch dispatch_layers layers_after index waves_from next_wave sort_steps insert_step
    mark_all ready trim_space steps_fit validate_step slug_id capability_id str_eq all_needs_fit
    needs_fit str_lt dispatch_waves close_steps close_step wave_results blocked_steps blocked_by
    runnable run_wave run_step review_of judge validate_output check_payload insert_result
    sort_results
only_two_measured = refl

all_pass : overall_verdict (progress_of (outcome_of true)).closed false ≡ verdict_ok
unfolding dispatch dispatch_layers layers_after index waves_from next_wave sort_steps insert_step
    mark_all ready trim_space steps_fit validate_step slug_id capability_id str_eq all_needs_fit
    needs_fit str_lt dispatch_waves close_steps close_step wave_results blocked_steps blocked_by
    runnable run_wave run_step review_of judge validate_output check_payload insert_result
    sort_results overall_verdict verdict_from failed_before
all_pass = refl

dispatch-Follows_example : Follows (calm false) 0 [] [] (progress_of (outcome_of false)).closed
unfolding failed_before
dispatch-Follows_example =
    dispatch-Follows (calm false) fork (codes "ask") [] [] [] (progress_of (outcome_of false))
      complete (outcome_of_ends false)

calm-Undisturbed : Undisturbed (calm true)
calm-Undisturbed = record { never_over = λ i. refl; always_saved = λ n. refl }

dispatch-complete_example :
    (p : Progress) × (outcome_of true ≡ ended p complete)
    × Perm (steps_of p.closed) (plain (keep (unfinished []) fork.steps))
    × Accounted p []
dispatch-complete_example =
    dispatch-complete (calm true) fork (codes "ask") [] [] []
      ((step (codes "a") [] ∷ step (codes "c") [] ∷ [])
        ∷ (step (codes "b") (codes "a" ∷ []) ∷ [])
        ∷ [])
      calm-Undisturbed fork_waves

approved-Passed_example :
    (false ≡ false)
    × Perm
        (steps_of (progress_of (outcome_of true)).closed)
        (plain (keep (unfinished []) fork.steps))
    × All (Passed (calm true)) (progress_of (outcome_of true)).closed
approved-Passed_example =
    approved-Passed (calm true) fork (codes "ask") [] [] [] (progress_of (outcome_of true)) false
      (outcome_of_ends true) all_pass
