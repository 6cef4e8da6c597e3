-- ===== src/Selector/Quality/Tally.antt =====
-- internal/selector/quality.go: what merging the observations of outcomes gives.
use atenea.Prelude.Int.{is_zero_ℤ, ℤ, pos, leb_ℤ, ◌+ℤ◌}
use atenea.Prelude.Float.{Float64, float_zero, float_one}
use atenea.Prelude.Str.{Str}
use atenea.Prelude.{
  ℕ, ◌+◌, ◌≤◌, ◌<◌, ◌≡◌, refl, sym, ◌∙◌, inl, inr, Bool-cases, Bool, true, false, not, ◌==◌, ltb,
  ◌&&◌, ◌||◌, if◌then◌else◌, any, arith,
}
use atenea.Contract.Validate.{bad_score}
use atenea.Contract.Completeness.{is_ok, Outcome}
use atenea.Selector.Quality.{Observation}
use atenea.Selector.Quality.Book.{
  observe, validate_observation, normalize, add_up, bool_int, present, partial_result, admits_gaps,
}
use atenea.Selector.Quality.Counts.{Counts, Counts-validate}

-- The counters of one outcome, over its tests: an error `r`, an answer that is ok `o` and there `p`.
valid_or_failure_bits :
    (r o p : Bool) → bool_int (not r && o && p) + bool_int (r || not o || not p) ≡ 1
valid_or_failure_bits r o p = ground arith

complete_or_partial_bits :
    (v x : Bool) → bool_int (v && x) + bool_int (v && not (v && x)) ≡ bool_int v
complete_or_partial_bits v x = ground arith

bool_int-eq : (b : Bool) → b ≡ (bool_int b == 1)
bool_int-eq b = ground arith

bool_int-positive : (b : Bool) → b ≡ ltb 0 (bool_int b)
bool_int-positive b = ground arith

score_bits : (b : Bool) → bad_score (if b then float_one else float_zero) ≡ false
unfolding bad_score
score_bits true = refl
score_bits false = refl

-- With complete `v && x && y && not t` of what is valid `v`, where `t` truncated.
accepted_bits :
    (v x y t z : Bool)
    → bool_int (v && (v && x && y && not t) && not t && z) ≤ bool_int (v && x && y && not t)
accepted_bits v x y t z = ground arith

complete_bits :
    (v x y t : Bool)
    → bool_int (v && x && y && not t) + bool_int (v && not (v && x && y && not t)) ≡ bool_int v
complete_bits v x y t = ground arith

truncated_bits :
    (v x y t : Bool) → bool_int (v && t) ≤ bool_int (v && not (v && x && y && not (v && t)))
truncated_bits v x y t = ground arith

-- Where the counters add up, `normalize` has no older row to fill in.
filled_total : (total samples : ℕ) → 0 < total → (if total == 0 then samples else total) ≡ total
filled_total total samples h = ground arith

filled_flag :
    (total count : ℕ) (flag : Bool)
    → flag ≡ (count == total)
    → (if (total == 1) && (count == 0) && flag then 1 else count) ≡ count
filled_flag total count flag h = ground arith

filled_mark :
    (one : Bool) (count : ℕ) (flag : Bool)
    → flag ≡ ltb 0 count
    → (if one && (count == 0) && flag then 1 else count) ≡ count
filled_mark one count flag h = ground arith

filled_valid :
    (count : ℕ) (flag : Bool)
    → flag ≡ ltb 0 count
    → (if (count == 0) && flag then 1 else count) ≡ count
filled_valid count flag h = ground arith

filled_partial :
    (valid complete partial : ℕ)
    → complete + partial ≡ valid
    → (if (partial == 0) && ltb 0 valid && (complete == 0) then valid else partial) ≡ partial
filled_partial valid complete partial h = ground arith

-- What is asked of the division of counts as float64: exact at 0 and 1, and never out of 0 to 1.
pub record IsRatio (ratio : ℕ → ℕ → Float64) : Type 0 where
  pub at_zero : ratio 0 1 ≡ float_zero
  pub at_one : ratio 1 1 ≡ float_one
  pub in_range : (a t : ℕ) → a ≤ t → 0 < t → bad_score (ratio a t) ≡ false

-- A row as the program makes it: what `validate_observation` tests, with the score and the marks
-- that are derived from the counters.
pub record Row (ratio : ℕ → ℕ → Float64) (q : Observation) : Type 0 where
  pub counts : Counts q
  pub valid_flag : q.valid_outcome ≡ ltb 0 q.valid_count
  pub validated_flag : q.validated ≡ ltb 0 q.total
  pub score_ratio : q.score ≡ ratio q.accepted_count q.total

score_ratio_bits :
    (ratio : ℕ → ℕ → Float64) (b : Bool)
    → IsRatio ratio
    → (if b then float_one else float_zero) ≡ ratio (bool_int b) 1
score_ratio_bits ratio true h = sym h.at_one
score_ratio_bits ratio false h = sym h.at_zero

observe-Counts :
    (now : ℕ) (capability repository implementation language tool : Str) (out : Outcome)
    (run_err : Bool)
    → leb_ℤ (pos 0) out.out_of_scope ≡ true
    → Counts (observe now capability repository implementation language tool out run_err)
unfolding observe
observe-Counts now capability repository implementation language tool out run_err scope =
    let v = not run_err && is_ok out.verdict && present out.result in
    let x = not (partial_result out) in
    let y = not (any admits_gaps out.evidence) in
    let loss = partial_result out || any (λ e. e.truncated) out.evidence in
    record {
      some_total = omega arith;
      scope_counted = scope;
      samples_total = refl;
      valid_or_failure = valid_or_failure_bits run_err (is_ok out.verdict) (present out.result);
      complete_or_partial = complete_bits v x y (v && loss);
      accepted_complete = accepted_bits v x y (v && loss) (is_zero_ℤ out.out_of_scope);
      truncated_partial = truncated_bits v x y loss;
      score_fine = score_bits _;
      accepted_flag = bool_int-eq _;
      complete_flag = bool_int-eq _;
      truncated_flag = bool_int-positive _;
    }

-- What `Observe` makes of an outcome, and of any error of the run, passes
-- `validateQualityObservation` exactly when the outcome's count of what is out of scope is not
-- negative.
pub observe-validate :
    (now : ℕ) (capability repository implementation language tool : Str) (out : Outcome)
    (run_err : Bool)
    → validate_observation
        (observe now capability repository implementation language tool out run_err)
      ≡ leb_ℤ (pos 0) out.out_of_scope
unfolding validate_observation observe
observe-validate now capability repository implementation language tool out run_err =
    elim (Bool-cases (leb_ℤ (pos 0) out.out_of_scope)) [
      | inl e ↦
          Counts-validate _
            (observe-Counts now capability repository implementation language tool out run_err e)
          ∙ sym e
      | inr e ↦ rw e refl
    ]

pub observe-Row :
    (ratio : ℕ → ℕ → Float64) (now : ℕ) (capability repository implementation language tool : Str)
    (out : Outcome) (run_err : Bool)
    → IsRatio ratio
    → leb_ℤ (pos 0) out.out_of_scope ≡ true
    → (observe now capability repository implementation language tool out run_err).validated ≡ true
    → Row ratio (observe now capability repository implementation language tool out run_err)
unfolding observe
observe-Row ratio now capability repository implementation language tool out run_err h scope
      judged =
    record {
      counts =
          observe-Counts now capability repository implementation language tool out run_err scope;
      valid_flag = bool_int-positive _;
      validated_flag = judged;
      score_ratio = score_ratio_bits ratio _ h;
    }

pub normalize-Row : (ratio : ℕ → ℕ → Float64) (q : Observation) → Row ratio q → normalize q ≡ q
unfolding normalize
normalize-Row ratio q r =
    let samples_some : 0 < q.samples = rw (r.counts.samples_total) r.counts.some_total in
    rw (
      filled_total q.total q.samples r.counts.some_total,
      filled_total q.samples q.total samples_some,
      filled_flag q.total q.accepted_count q.accepted r.counts.accepted_flag,
      filled_valid q.valid_count q.valid_outcome r.valid_flag,
      filled_flag q.total q.complete_count q.complete r.counts.complete_flag,
      filled_mark (q.total == 1) q.truncated_count q.truncated r.counts.truncated_flag,
      filled_partial q.valid_count q.complete_count q.partial_count r.counts.complete_or_partial,
      sym r.valid_flag,
      sym r.validated_flag,
    )

add_flag : (b : Bool) (t : ℕ) → 0 < t → (b && ltb 0 t) ≡ b
add_flag b t h = ground arith

+ℤ-counted :
    (a b : ℤ) → leb_ℤ (pos 0) a ≡ true → leb_ℤ (pos 0) b ≡ true → leb_ℤ (pos 0) (a +ℤ b) ≡ true
unfolding ◌+ℤ◌
+ℤ-counted a b h k = ground arith

pub add_up-Row :
    (ratio : ℕ → ℕ → Float64) (a b : Observation)
    → IsRatio ratio
    → Row ratio a
    → Row ratio b
    → Row ratio (add_up ratio a b)
unfolding add_up
add_up-Row ratio a b h r s =
    let p = r.counts in
    let q = s.counts in
    let some_total : 0 < a.total + b.total = omega (arith, p.some_total) in
    record {
      counts = record {
        some_total = some_total;
        scope_counted = +ℤ-counted _ _ p.scope_counted q.scope_counted;
        samples_total = refl;
        valid_or_failure = omega (arith, p.valid_or_failure, q.valid_or_failure);
        complete_or_partial = omega (arith, p.complete_or_partial, q.complete_or_partial);
        accepted_complete = omega (arith, p.accepted_complete, q.accepted_complete);
        truncated_partial = omega (arith, p.truncated_partial, q.truncated_partial);
        score_fine =
            h.in_range _ _
              (omega (
                arith, p.accepted_complete, q.accepted_complete, p.complete_or_partial,
                q.complete_or_partial, p.valid_or_failure, q.valid_or_failure,
              ))
              some_total;
        accepted_flag = add_flag _ _ some_total;
        complete_flag = add_flag _ _ some_total;
        truncated_flag = refl;
      };
      valid_flag = refl;
      validated_flag = refl;
      score_ratio = refl;
    }
