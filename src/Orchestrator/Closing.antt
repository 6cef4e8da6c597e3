-- ===== src/Orchestrator/Closing.antt =====
-- internal/orchestrator/orchestrator.go: a step that closes, and the review of it.
use atenea.Prelude.Float.{Float64}
use atenea.Prelude.Str.{Str}
use atenea.Prelude.{ℕ, Bool, true, false, not, [], Option, none, some, if◌then◌else◌}
use atenea.Contract.Value.{Fields, end}
use atenea.Contract.Capability.{Capability}
use atenea.Contract.Payload.{validate_output}
use atenea.Contract.Completeness.{
  is_ok, Verdict, verdict_ok, verdict_failed, verdict_canceled, Outcome,
}
use atenea.Contract.Plan.{Step}

pub data FailureKind : Type 0 where
  failure_unspecified failure_invalid_input failure_not_found failure_permission_denied :
      FailureKind
  failure_external_denied failure_unavailable failure_timeout failure_canceled : FailureKind

abbrev pub is_canceled : FailureKind → Bool
is_canceled failure_canceled = true
is_canceled _ = false

-- What a step has when it reaches `close`: the outcome, or an error of a kind.
pub record Answer : Type 0 where
  pub outcome : Outcome
  pub cache_hit : Bool
  pub coalesced : Bool
  pub duration : ℕ
  pub tokens : ℕ
  pub dispatched : Bool
  pub error : Option FailureKind

pub data Reason : Type 0 where
  blocked : (culprit : Str) → Reason
  stopped_before_review : Reason
  failed_with : FailureKind → Reason
  capability_disappeared output_does_not_match no_success output_matches : Reason

pub record Review : Type 0 where
  pub child : Verdict
  pub parent : Verdict
  pub reason : Reason
  pub disagreed : Bool

pub record StepResult : Type 0 where
  pub step : Step
  pub phase : Str
  pub answer : Answer
  pub review : Review

abbrev pub is_canceled_verdict : Verdict → Bool
is_canceled_verdict verdict_canceled = true
is_canceled_verdict _ = false

abbrev same_verdict : Verdict → Verdict → Bool
same_verdict verdict_ok verdict = is_ok verdict
same_verdict verdict_failed verdict_failed = true
same_verdict _ _ = false

abbrev pub result_of : Outcome → Fields
result_of o = elim o.result [ none ↦ end | some fields ↦ fields ]

-- `judge`, where there is no error.
unfoldable pub judge : Option Capability → Outcome → Verdict × Reason
judge none o = (verdict_failed, capability_disappeared)
judge (some c) o =
    if not (validate_output c (result_of o))
    then (verdict_failed, output_does_not_match)
    else if is_ok o.verdict
    then (verdict_ok, output_matches)
    else (verdict_failed, no_success)

-- The review that `close` writes; `judge` answers an error with the kind of it. The parent's verdict
-- is `ok` or `failed` here, so the comparison needs no other case.
unfoldable pub review_of : Option Capability → Answer → Option FailureKind → Review
unfolding judge
review_of c a none =
    let (parent, reason) = judge c a.outcome in
    record {
      child = a.outcome.verdict;
      parent = parent;
      reason = reason;
      disagreed = not (same_verdict parent a.outcome.verdict);
    }
review_of c a (some kind) =
    if is_canceled kind
    then record {
      child = verdict_canceled;
      parent = verdict_canceled;
      reason = stopped_before_review;
      disagreed = false;
    }
    else record {
      child = verdict_failed;
      parent = verdict_failed;
      reason = failed_with kind;
      disagreed = false;
    }

-- What the loop meets from outside: the catalog; what a step of a wave answers; the share of each
-- step of a wave; whether the context is over before a wave; whether a record of so many steps is
-- written.
pub record Surroundings : Type 0 where
  pub capability : Str → Option Capability
  pub answer : ℕ → Step → Answer
  pub share : ℕ → Float64
  pub over : ℕ → Bool
  pub saved : ℕ → Bool

-- `close`, on what the step answers.
unfoldable pub run_step : Surroundings → ℕ → Step → StepResult
unfolding review_of
run_step env i s =
    let a = env.answer i s in
    record {
      step = s;
      phase = [];
      answer = a;
      review = review_of (env.capability s.capability) a a.error;
    }
