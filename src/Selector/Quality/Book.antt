-- ===== src/Selector/Quality/Book.antt =====
-- internal/selector/quality.go: `Observe`, `normalize`, `mergeQuality` and
-- `validateQualityObservation`, with the counters of the parent; the instant of an observation is
-- the parameter `now`.
use atenea.Prelude.Int.{is_zero_ℤ, pos, leb_ℤ, ◌+ℤ◌}
use atenea.Prelude.Float.{Float64, float_zero, float_one}
use atenea.Prelude.Str.{Str, codes, str_eq}
use atenea.Prelude.{
  ℕ, ◌+◌, Bool, true, false, not, ◌==◌, ltb, leb, ◌&&◌, ◌||◌, [], Option, none, some, if◌then◌else◌,
  any,
}
use atenea.Contract.Implementation.{to_lower}
use atenea.Contract.Validate.{bad_score}
use atenea.Contract.Completeness.{
  is_ok, fields_partial, Verdict, verdict_unspecified, QueryEvidence, Outcome,
}
use atenea.Selector.Quality.{Observation}

abbrev is_judged : Verdict → Bool
is_judged verdict_unspecified = false
is_judged _ = true

abbrev pub present : {A : Type 0} → Option A → Bool
present none = false
present (some a) = true

abbrev pub bool_int : Bool → ℕ
bool_int true = 1
bool_int false = 0

abbrev pub partial_result : Outcome → Bool
unfolding fields_partial
partial_result out = elim out.result [ none ↦ false | some fields ↦ fields_partial fields ]

-- `Completeness != "" && !EqualFold(Completeness, "complete")`
abbrev pub admits_gaps : QueryEvidence → Bool
unfolding str_eq
admits_gaps e =
    not (str_eq e.completeness []) && not (str_eq (to_lower e.completeness) (codes "complete"))

unfoldable pub observe : ℕ → Str → Str → Str → Str → Str → Outcome → Bool → Observation
unfolding partial_result admits_gaps
observe now capability repository implementation language tool_version out run_err =
    let valid = not run_err && is_ok out.verdict && present out.result in
    let validated = run_err || is_judged out.verdict || present out.result in
    let structural = partial_result out in
    let truncated = valid && (structural || any (λ e. e.truncated) out.evidence) in
    let complete = valid && not structural && not (any admits_gaps out.evidence) && not truncated in
    let accepted = valid && complete && not truncated && is_zero_ℤ out.out_of_scope in
    record {
      capability = capability;
      repository = repository;
      repository_root = [];
      implementation = implementation;
      language = language;
      tool_version = tool_version;
      instance_id = [];
      config_digest = [];
      samples = 1;
      total = 1;
      valid_count = bool_int valid;
      accepted_count = bool_int accepted;
      complete_count = bool_int complete;
      partial_count = bool_int (valid && not complete);
      truncated_count = bool_int truncated;
      failure_count = bool_int (run_err || not (is_ok out.verdict) || not (present out.result));
      accepted = accepted;
      complete = complete;
      truncated = truncated;
      out_of_scope = out.out_of_scope;
      valid_outcome = valid;
      validated = validated;
      score = if accepted then float_one else float_zero;
      observed_at = now;
    }

-- Each assignment reads the fields as those above it left them.
unfoldable pub normalize : Observation → Observation
normalize q =
    let total = if q.total == 0 then q.samples else q.total in
    let samples = if q.samples == 0 then total else q.samples in
    let accepted =
      if (total == 1) && (q.accepted_count == 0) && q.accepted then 1 else q.accepted_count in
    let valid = if (q.valid_count == 0) && q.valid_outcome then 1 else q.valid_count in
    let complete =
      if (total == 1) && (q.complete_count == 0) && q.complete then 1 else q.complete_count in
    let truncated =
      if (total == 1) && (q.truncated_count == 0) && q.truncated then 1 else q.truncated_count in
    let partial =
      if (q.partial_count == 0) && ltb 0 valid && (complete == 0) then valid else q.partial_count in
    record q {
      total = total;
      samples = samples;
      accepted_count = accepted;
      valid_count = valid;
      complete_count = complete;
      truncated_count = truncated;
      partial_count = partial;
      valid_outcome = ltb 0 valid;
      validated = ltb 0 total;
    }

-- `validateQualityObservation`; of the tests on negative counters, that on what is out of scope
-- can fail here. A score that is
-- not finite is out of 0 to 1 or NaN.
abbrev pub same_flag : Bool → Bool → Bool
same_flag true b = b
same_flag false b = not b

unfoldable pub validate_observation : Observation → Bool
validate_observation q =
    ltb 0 q.total
    && leb_ℤ (pos 0) q.out_of_scope
    && (q.samples == q.total)
    && leb q.valid_count q.total
    && leb q.accepted_count q.total
    && leb q.complete_count q.total
    && leb q.partial_count q.total
    && leb q.truncated_count q.total
    && leb q.failure_count q.total
    && leb q.accepted_count q.valid_count
    && leb q.accepted_count q.complete_count
    && (q.valid_count + q.failure_count == q.total)
    && (q.complete_count + q.partial_count == q.valid_count)
    && leb q.truncated_count q.valid_count
    && leb q.truncated_count q.partial_count
    && not (bad_score q.score)
    && same_flag q.accepted (q.accepted_count == q.total)
    && same_flag q.complete (q.complete_count == q.total)
    && same_flag q.truncated (ltb 0 q.truncated_count)

-- `float64(a) / float64(b)` is the parameter `ratio`.
module _ (ratio : ℕ → ℕ → Float64) where
  unfoldable pub add_up : Observation → Observation → Observation
  add_up a b =
      let total = a.total + b.total in
      let accepted = a.accepted_count + b.accepted_count in
      let complete = a.complete_count + b.complete_count in
      let truncated = a.truncated_count + b.truncated_count in
      let valid = a.valid_count + b.valid_count in
      record a {
        total = total;
        samples = total;
        accepted_count = accepted;
        valid_count = valid;
        complete_count = complete;
        partial_count = a.partial_count + b.partial_count;
        truncated_count = truncated;
        failure_count = a.failure_count + b.failure_count;
        out_of_scope = a.out_of_scope +ℤ b.out_of_scope;
        accepted = (accepted == total) && ltb 0 total;
        complete = (complete == total) && ltb 0 total;
        truncated = ltb 0 truncated;
        valid_outcome = ltb 0 valid;
        validated = ltb 0 total;
        score = ratio accepted total;
        observed_at = if ltb a.observed_at b.observed_at then b.observed_at else a.observed_at;
      }

  unfoldable pub merge_quality : Observation → Observation → Observation
  merge_quality a b = if str_eq a.capability [] then normalize b else add_up a (normalize b)
