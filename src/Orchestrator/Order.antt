-- ===== src/Orchestrator/Order.antt =====
-- internal/orchestrator/orchestrator.go: the order in which a dispatch closes steps.
use mathlib.Core.Path.{subst}
use atenea.Prelude.Str.{Str}
use atenea.Prelude.{
  ℕ, suc, ◌≡◌, refl, sym, ap, ◌∙◌, Bool, true, false, List, [], ◌∷◌, ◌++◌, map, length, All,
  if-both,
}
use atenea.Contract.Plan.{Step, Plan, Layering, layers, invalid, cycle, no_fuel, ready, step_ids}
use atenea.Contract.Plan.Schedule.{
  Scheduled, layers_after-Scheduled, ready-Same, contains-append, All-map, Same,
}
use atenea.Orchestrator.Closing.{StepResult, Surroundings}
use atenea.Orchestrator.Loop.{
  wave_results, Progress, close_step, close_steps, Ending, context_over, not_saved, dispatch_waves,
  ids_of, failed_before, starting_progress, ended, dispatch_layers, dispatch,
}
use atenea.Orchestrator.Waves.{Judged, halted, ran, wave_results-Judged, in_phase, Closes}
use atenea.Orchestrator.Ids.{contains-wave_results}

pub append_assoc : (l m n : List StepResult) → (l ++ m) ++ n ≡ l ++ (m ++ n)
append_assoc [] m n = refl
append_assoc (r ∷ l) m n = ap (λ x. r ∷ x) (append_assoc l m n)

pub append_nil : (l : List StepResult) → l ++ [] ≡ l
append_nil [] = refl
append_nil (r ∷ l) = ap (λ x. r ∷ x) (append_nil l)

first-Closes :
    (env : Surroundings) (phase : Str) (p : Progress) (r : StepResult) (done : List StepResult)
    (q : Progress) (written : Bool)
    → Closes phase (close_step phase p r) q done written
    → Closes phase p q (r ∷ done) written
unfolding close_step
first-Closes env phase p r done q written c = record {
  now = in_phase phase r ∷ c.now;
  closed = c.closed ∙ append_assoc p.closed (in_phase phase r ∷ []) c.now;
  recorded = c.recorded ∙ append_assoc p.recorded (in_phase phase r ∷ []) c.now;
  failed = c.failed ∙ unfold failed_before in refl;
  part = λ P a. (a.0, c.part P a.1);
  whole = λ e. ap (λ x. in_phase phase r ∷ x) (c.whole e);
}

-- The record is not written: the loop ends behind this step.
stop-Closes :
    (phase : Str) (p : Progress) (r : StepResult) (done : List StepResult)
    → Closes phase p (close_step phase p r) (r ∷ done) false
unfolding close_step
stop-Closes phase p r done = record {
  now = in_phase phase r ∷ [];
  closed = refl;
  recorded = refl;
  failed = unfold failed_before in refl;
  part = λ P a. (a.0, tt);
  whole = λ e. cc e;
}

pub close_steps-Closes :
    (env : Surroundings) (phase : Str) (p : Progress) (done : List StepResult)
    → Closes phase p (close_steps env phase p done).0 done (close_steps env phase p done).1
unfolding close_steps
close_steps-Closes env phase p [] = record {
  now = [];
  closed = sym (append_nil p.closed);
  recorded = sym (append_nil p.recorded);
  failed = unfold failed_before in refl;
  part = λ P a. tt;
  whole = λ e. refl;
}
close_steps-Closes env phase p (r ∷ done) =
    let q = close_step phase p r in
    if-both (λ x. Closes phase p x.0 (r ∷ done) x.1) (env.saved (length q.recorded))
      (close_steps env phase q done) (q, false)
      (λ e. first-Closes env phase p r done _ _ (close_steps-Closes env phase q done))
      (λ e. stop-Closes phase p r done)

-- The closed steps of a dispatch from wave `i`, wave by wave: what each wave closes is judged by the
-- steps known, and by those that did not pass, before it.
pub data Follows (env : Surroundings) : ℕ → List Str → List Str → List StepResult → Type 0 where
  over : {i : ℕ} {known failed : List Str} → Follows env i known failed []
  wave :
      {i : ℕ} {known failed : List Str} (now later : List StepResult)
      → All (Judged env i known failed) now
      → Follows env (suc i) (ids_of now ++ known) (failed_before failed now) later
      → Follows env i known failed (now ++ later)

one-Judged :
    (env : Surroundings) (i : ℕ) (known failed : List Str) (phase : Str) (r : StepResult)
    → Judged env i known failed r
    → Judged env i known failed (in_phase phase r)
one-Judged env i known failed phase _ (halted s culprit old m h) = halted s culprit phase m h
one-Judged env i known failed phase _ (ran s old h) = ran s phase h

pub ids_of-in_phase :
    (phase : Str) (l : List StepResult) → ids_of (map (in_phase phase) l) ≡ ids_of l
ids_of-in_phase phase [] = refl
ids_of-in_phase phase (r ∷ l) = ap (λ x. r.step.id ∷ x) (ids_of-in_phase phase l)

in_phase-Judged :
    (env : Surroundings) (i : ℕ) (known failed : List Str) (phase : Str) (l : List StepResult)
    → All (Judged env i known failed) l
    → All (Judged env i known failed) (map (in_phase phase) l)
in_phase-Judged env i known failed phase [] a = tt
in_phase-Judged env i known failed phase (r ∷ l) a =
    (one-Judged env i known failed phase r a.0, in_phase-Judged env i known failed phase l a.1)

module _ (env : Surroundings) (phase : Str) (i : ℕ) (p : Progress) where
  -- The ids known behind a wave that is closed.
  known-Same :
      (before known : List Str) (w : List Step) (q : Progress) (written : Bool)
      → Same known before
      → written ≡ true
      → (c : Closes phase p q (wave_results env i p.failed w) written)
      → Same (ids_of c.now ++ known) (step_ids w ++ before)
  known-Same before known w q written h f c k =
      contains-append k (ids_of c.now) known
      ∙ (rw
          (
            c.whole f,
            ids_of-in_phase phase (wave_results env i p.failed w),
            contains-wave_results env i k p.failed w,
            h k,
          )
          (sym (contains-append k (step_ids w) before)))

  now-Judged :
      (before known : List Str) (w : List Step) (q : Progress) (written : Bool)
      → Same known before
      → All (λ s. ready s.needs before ≡ true) w
      → (c : Closes phase p q (wave_results env i p.failed w) written)
      → All (Judged env i known p.failed) c.now
  now-Judged before known w q written h r c = c.part (Judged env i known p.failed) (
      in_phase-Judged env i known p.failed phase _ (
        wave_results-Judged env i known p.failed w
          (All-map _ _ w (λ s e. ready-Same s.needs known before h ∙ e) r)))

-- What a dispatch adds to the closed steps follows the waves.
abbrev Adds : Surroundings → ℕ → Progress → List Str → Progress × Ending → Type 0
Adds env i p known (q, ending) =
    (later : List StepResult) × (q.closed ≡ p.closed ++ later) × Follows env i known p.failed later

-- A wave that is closed, before what the later waves add.
wave-Adds :
    (env : Surroundings) (phase : Str) (i : ℕ) (p q : Progress) (known : List Str)
    (done : List StepResult) (written : Bool) (end : Progress × Ending)
    → (c : Closes phase p q done written) → All (Judged env i known p.failed) c.now
    → Adds env (suc i) q (ids_of c.now ++ known) end
    → Adds env i p known end
wave-Adds env phase i p q known done written (z, ending) c judged (later, e, follows) = (
  c.now ++ later,
  e ∙ (ap (λ x. x ++ later) c.closed ∙ append_assoc p.closed c.now later),
  wave c.now later judged
      (subst (λ f. Follows env (suc i) (ids_of c.now ++ known) f later) c.failed follows),
)

dispatch_waves-Adds :
    (env : Surroundings) (phase : Str) (i : ℕ) (p : Progress) (before known : List Str)
    (ws : List (List Step))
    → Scheduled before ws
    → Same known before
    → Adds env i p known (dispatch_waves env phase i p ws)
unfolding dispatch_waves
dispatch_waves-Adds env phase i p before known [] s h = ([], sym (append_nil p.closed), over)
dispatch_waves-Adds env phase i p before known (w ∷ ws) s h =
    let done = wave_results env i p.failed w in
    let (q, written) = close_steps env phase p done in
    let c = close_steps-Closes env phase p done in
    let judged = now-Judged env phase i p before known w q written h s.0 c in
    if-both (Adds env i p known) (env.over i) (p, context_over) _
      (λ e. ([], sym (append_nil p.closed), over))
      (λ e.
        if-both (Adds env i p known) written _ (q, not_saved)
          (λ f.
            wave-Adds env phase i p q known done written (dispatch_waves env phase (suc i) q ws) c
              judged
              (dispatch_waves-Adds env phase (suc i) q (step_ids w ++ before)
                (ids_of c.now ++ known) ws s.2
                (known-Same env phase i p before known w q written h f c)))
          (λ f. (
            c.now,
            c.closed,
            subst (Follows env i known p.failed) (append_nil c.now) (wave c.now [] judged over),
          )))

pub dispatch_layers-ended :
    (env : Surroundings) (phase : Str) (start : Progress) (l : Layering) (p : Progress)
    (ending : Ending)
    → dispatch_layers env phase start l ≡ ended p ending
    → (ws : List (List Step)) × (l ≡ layers ws)
      × (dispatch_waves env phase 0 start ws ≡ (p, ending))
unfolding dispatch_layers
dispatch_layers-ended env phase start (layers ws) p ending e = (ws, refl, cc e)
dispatch_layers-ended env phase start invalid p ending e = absurd (cc e)
dispatch_layers-ended env phase start (cycle ids) p ending e = absurd (cc e)
dispatch_layers-ended env phase start no_fuel p ending e = absurd (cc e)

-- Every step that a dispatch closes is closed in the order of the needs. The closed steps are those
-- of the waves, one wave behind another, and each of a wave is one of two. It is blocked, where one
-- of its needs did not pass: then it is not dispatched, and its review names that need. Or it ran,
-- and is what `close` makes of its answer: then each step that it needs is known, since it is closed
-- in an earlier wave or before this dispatch, and none of them did not pass. This holds however the
-- dispatch ends.
pub dispatch-Follows :
    (env : Surroundings) (plan : Plan) (phase : Str) (steps recorded : List StepResult)
    (already_ok : List Str) (p : Progress) (ending : Ending)
    → dispatch env plan phase steps recorded already_ok ≡ ended p ending
    → Follows env 0 (ids_of steps ++ already_ok) (failed_before [] steps) p.closed
unfolding dispatch
dispatch-Follows env plan phase steps recorded already_ok p ending e =
    let start = starting_progress steps recorded in
    let (ws, l, run) = dispatch_layers-ended env phase start _ p ending e in
    let (perm, sched) = layers_after-Scheduled plan (ids_of steps ++ already_ok) ws l in
    let known = ids_of steps ++ already_ok in
    let (later, all, follows) =
      subst (Adds env 0 start known) run
        (dispatch_waves-Adds env phase 0 start known known ws sched (λ k. refl)) in
    subst (Follows env 0 known start.failed) (sym all) follows
