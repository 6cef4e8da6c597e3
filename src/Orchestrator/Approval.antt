-- ===== src/Orchestrator/Approval.antt =====
-- internal/orchestrator/orchestrator.go: what the verdict of a whole commission says of its steps.
use mathlib.Core.List.{Perm}
use mathlib.Core.List.Perm
use atenea.Prelude.Str.{Str}
use atenea.Prelude.{
  ℕ, suc, ◌≡◌, refl, inl, inr, Bool, true, false, ◌||◌, List, [], ◌∷◌, ◌++◌, Option, none, some,
  keep, All, Bool-cases, arith,
}
use atenea.Contract.Capability.{Capability}
use atenea.Contract.Payload.{validate_output}
use atenea.Contract.Completeness.{is_ok, verdict_ok, Outcome}
use atenea.Contract.Plan.{Plan, unfinished}
use atenea.Contract.Plan.Schedule.{layers_after-Scheduled}
use atenea.Orchestrator.Closing.{
  FailureKind, Answer, StepResult, Surroundings, is_canceled_verdict, result_of, judge, review_of,
  run_step,
}
use atenea.Orchestrator.Loop.{
  Progress, complete, ids_of, starting_progress, ended, dispatch, verdict_from, overall_verdict,
}
use atenea.Orchestrator.Waves.{Judged, halted, ran}
use atenea.Orchestrator.Ids.{without_share, plain, steps_of}
use atenea.Orchestrator.Order.{Follows, over, wave, dispatch-Follows, dispatch_layers-ended}
use atenea.Orchestrator.Complete.{dispatch_waves-all}

-- A step that the parent approved has an answer without an error, that says `ok`, and whose result
-- fits the outputs of a capability in the catalog.
pub record Passed (env : Surroundings) (r : StepResult) : Type 0 where
  pub approved : is_ok r.review.parent ≡ true
  pub no_error : r.answer.error ≡ none
  pub says_ok : is_ok r.answer.outcome.verdict ≡ true
  pub fits :
      (c : Capability) × (env.capability r.step.capability ≡ some c)
      × (validate_output c (result_of r.answer.outcome) ≡ true)

judge-ok :
    (o : Option Capability) (out : Outcome)
    → is_ok (judge o out).0 ≡ true
    → (is_ok out.verdict ≡ true)
      × ((c : Capability) × (o ≡ some c) × (validate_output c (result_of out) ≡ true))
unfolding judge
judge-ok none out h = absurd (cc h)
judge-ok (some c) out h = elim (Bool-cases (validate_output c (result_of out))) [
  | inl v ↦ (ground (arith, v, h), (c, refl, v))
  | inr v ↦ absurd (ground (arith, v, h))
]

review_of-ok :
    (o : Option Capability) (a : Answer) (error : Option FailureKind)
    → is_ok (review_of o a error).parent ≡ true
    → (error ≡ none) × (is_ok (judge o a.outcome).0 ≡ true)
unfolding review_of
review_of-ok o a none h = (refl, h)
review_of-ok o a (some kind) h = absurd (ground arith)

Judged-Passed :
    (env : Surroundings) (i : ℕ) (known failed : List Str) (r : StepResult)
    → Judged env i known failed r
    → is_ok r.review.parent ≡ true
    → Passed env r
unfolding run_step
Judged-Passed env i known failed _ (halted s culprit phase m c) h = absurd (cc h)
Judged-Passed env i known failed _ (ran s phase needs) h =
    let a = env.answer i s in
    let (none_left, j) = review_of-ok (env.capability s.capability) a a.error h in
    let (says, fits) = judge-ok (env.capability s.capability) a.outcome j in
    record { approved = h; no_error = none_left; says_ok = says; fits = fits }

abbrev IsApproved : StepResult → Type 0
IsApproved r = is_ok r.review.parent ≡ true

All-Passed :
    (env : Surroundings) (i : ℕ) (known failed : List Str) (l : List StepResult)
    → All (Judged env i known failed) l
    → All IsApproved l
    → All (Passed env) l
All-Passed env i known failed [] a b = tt
All-Passed env i known failed (r ∷ l) a b =
    (Judged-Passed env i known failed r a.0 b.0, All-Passed env i known failed l a.1 b.1)

All-parts : (P : StepResult → Type 0) (l m : List StepResult) → All P (l ++ m) → All P l × All P m
All-parts P [] m a = (tt, a)
All-parts P (r ∷ l) m a = let (b, c) = All-parts P l m a.1 in ((a.0, b), c)

All-join : (P : StepResult → Type 0) (l m : List StepResult) → All P l → All P m → All P (l ++ m)
All-join P [] m a b = b
All-join P (r ∷ l) m a b = (a.0, All-join P l m a.1 b)

Follows-Passed :
    (env : Surroundings) (i : ℕ) (known failed : List Str) (l : List StepResult)
    → Follows env i known failed l
    → All IsApproved l
    → All (Passed env) l
Follows-Passed env i known failed _ over a = tt
Follows-Passed env i known failed _ (wave now later judged follows) a =
    let (b, c) = All-parts IsApproved now later a in
    All-join (Passed env) now later (All-Passed env i known failed now judged b)
      (Follows-Passed env (suc i) _ _ later follows c)

verdict_from-ok :
    (canceled none_ran : Bool) (l : List StepResult)
    → verdict_from canceled none_ran l ≡ verdict_ok
    → (canceled ≡ false) × All IsApproved l
unfolding verdict_from
verdict_from-ok true none_ran [] e = absurd (cc e)
verdict_from-ok false none_ran [] e = (refl, tt)
verdict_from-ok canceled none_ran (r ∷ l) e =
    elim (Bool-cases (is_ok r.review.parent || is_canceled_verdict r.review.parent)) [
      | inl b ↦
          let (quiet, all) =
            verdict_from-ok (canceled || is_canceled_verdict r.review.parent) false l
              (ground (arith, b, e)) in
          (ground (arith, quiet), (ground (arith, quiet, b), all))
      | inr b ↦ absurd (ground (arith, b, e))
    ]

-- Where a dispatch ends with every wave closed, and the verdict of the whole commission, over the
-- steps before it and its own, is `ok`: nothing stopped the commission; the dispatch closed each
-- step of the plan that was not finished, as often as the plan has it and unchanged but for the share
-- cut for it; and each of these answered without an error and said `ok`, with a result that fits
-- the outputs its capability declares in the catalog.
pub approved-Passed :
    (env : Surroundings) (plan : Plan) (phase : Str) (steps recorded : List StepResult)
    (already_ok : List Str) (p : Progress) (stopped : Bool)
    → dispatch env plan phase steps recorded already_ok ≡ ended p complete
    → overall_verdict (steps ++ p.closed) stopped ≡ verdict_ok
    → (stopped ≡ false)
      × Perm (steps_of p.closed) (plain (keep (unfinished (ids_of steps ++ already_ok)) plan.steps))
      × All (Passed env) p.closed
unfolding dispatch overall_verdict
approved-Passed env plan phase steps recorded already_ok p stopped e v =
    let start = starting_progress steps recorded in
    let (quiet, all) = verdict_from-ok stopped true (steps ++ p.closed) v in
    let (ws, l, run) = dispatch_layers-ended env phase start _ p complete e in
    let (later, closed, perm) = dispatch_waves-all env phase 0 start p ws run in
    let (scheduled, order) = layers_after-Scheduled plan (ids_of steps ++ already_ok) ws l in
    (
      quiet,
      rw closed (Perm.trans perm (Perm.map without_share scheduled)),
      Follows-Passed env 0 _ _ p.closed
          (dispatch-Follows env plan phase steps recorded already_ok p complete e)
          (All-parts IsApproved steps p.closed all).1,
    )
