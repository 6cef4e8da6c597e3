-- ===== src/Tests/Questions.antt =====
-- A question that goes well, and one with a budget that is not an amount of money.
use atenea.Prelude.Float.{Float64, nan, float_zero, float_one}
use atenea.Prelude.Str.{Str, codes, str_eq, str_lt, trim_space}
use atenea.Prelude.{◌≡◌, refl, true, false, [], ◌∷◌, some}
use atenea.Contract.Ids.{slug_id, capability_id}
use atenea.Contract.Value.{end}
use atenea.Contract.Capability.{effect_write, effect_device}
use atenea.Contract.Completeness.{verdict_ok}
use atenea.Contract.Payload.{validate_output, check_payload, is_finite}
use atenea.Contract.Plan.{
  grant_effects, grant, index, steps_fit, all_needs_fit, needs_fit, validate_step,
  validate_permission, real_money, ready, mark_all, next_wave, insert_step, sort_steps, waves_from,
  layers_after,
}
use atenea.Orchestrator.Closing.{failure_invalid_input, Surroundings, judge, review_of, run_step}
use atenea.Orchestrator.Loop.{
  run_wave, blocked_by, blocked_steps, runnable, insert_result, sort_results, wave_results,
  Progress, close_step, close_steps, complete, dispatch_waves, failed_before, dispatch_layers,
  dispatch, verdict_from, overall_verdict,
}
use atenea.Orchestrator.Ask.{
  floor_of, Question, Agent, valid_grant, ask_step, ask_plan, validate_plan, Asked, ask_refused,
  asked, ask_repository, ask,
}
use atenea.Orchestrator.Ask.Permit.{Permitted, ask-Permitted}
use atenea.Tests.Dispatch.{search, saying}

abbrev one_site : Agent
one_site = record {
  standing_effects = effect_device ∷ [];
  budget = float_one;
  attached = true;
  repository = λ id. some (codes "site");
}

abbrev willing : Surroundings
willing = record {
  capability = λ id. some search;
  answer = λ i s. saying verdict_ok;
  share = λ i. float_zero;
  over = λ i. false;
  saved = λ n. true;
}

abbrev question : Float64 → Question
question budget = record {
  capability = codes " code.search";
  repository = codes "site";
  prefer = [];
  payload = end;
  effects = effect_write ∷ [];
  budget_usd = budget;
  floor = floor_of [];
}

abbrev progress_of : Asked → Progress
progress_of (asked _ p ending) = p
progress_of _ = record { failed = []; closed = []; measured = []; recorded = []; spent = (0, 0) }

abbrev answered : Asked
answered = ask one_site willing false (question float_zero)

not_money : ask one_site willing false (question nan) ≡ ask_refused failure_invalid_input
unfolding ask valid_grant is_finite trim_space
not_money = refl

answered_ok : answered ≡ asked verdict_ok (progress_of answered) complete
unfolding ask valid_grant is_finite trim_space ask_repository ask_plan ask_step grant grant_effects
    validate_plan dispatch dispatch_layers layers_after index waves_from next_wave sort_steps
    insert_step mark_all ready steps_fit validate_step validate_permission real_money slug_id
    capability_id str_eq all_needs_fit needs_fit str_lt dispatch_waves close_steps close_step
    wave_results blocked_steps blocked_by runnable run_wave run_step review_of judge validate_output
    check_payload insert_result sort_results failed_before overall_verdict verdict_from
answered_ok = refl

ask-Permitted_example :
    (id : Str) × Permitted one_site willing (question float_zero) (progress_of answered) id
ask-Permitted_example =
    ask-Permitted one_site willing false (question float_zero) (progress_of answered) answered_ok
