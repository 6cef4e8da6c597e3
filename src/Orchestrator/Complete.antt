-- ===== src/Orchestrator/Complete.antt =====
-- internal/orchestrator/orchestrator.go: a dispatch that nothing stops closes every step.
use mathlib.Core.List.{Perm}
use mathlib.Core.List.Perm
use atenea.Prelude.Str.{Str}
use atenea.Prelude.{
  map, ℕ, suc, ◌≡◌, refl, sym, ap, ◌∙◌, Bool, true, false, List, [], ◌∷◌, ◌++◌, length, keep,
  if-both, if◌then◌else◌,
}
use atenea.Contract.Plan.{Step, Plan, layers, unfinished, layers_after}
use atenea.Contract.Plan.Schedule.{all_of, layers_after-Scheduled}
use atenea.Orchestrator.Closing.{StepResult, Surroundings}
use atenea.Orchestrator.Loop.{
  add_spent, total_from, total_spent, wave_results, counts, Progress, close_step, close_steps,
  Ending, complete, context_over, not_saved, dispatch_waves, ids_of, starting_progress, ended,
  dispatch_layers, dispatch,
}
use atenea.Orchestrator.Waves.{in_phase}
use atenea.Orchestrator.Ids.{without_share, plain, steps_of, wave_results-perm}
use atenea.Orchestrator.Order.{append_assoc, append_nil, close_steps-Closes}

-- Nothing stops a dispatch: the context is never over, and each record is written.
pub record Undisturbed (env : Surroundings) : Type 0 where
  pub never_over : (i : ℕ) → env.over i ≡ false
  pub always_saved : (n : ℕ) → env.saved n ≡ true

close_steps-written :
    (env : Surroundings) (phase : Str) (p : Progress) (done : List StepResult)
    → Undisturbed env
    → (close_steps env phase p done).1 ≡ true
unfolding close_steps
close_steps-written env phase p [] u = refl
close_steps-written env phase p (r ∷ done) u =
    rw (u.always_saved (length (close_step phase p r).recorded))
      (close_steps-written env phase (close_step phase p r) done u)

dispatch_waves-complete :
    (env : Surroundings) (phase : Str) (i : ℕ) (p : Progress) (ws : List (List Step))
    → Undisturbed env
    → (dispatch_waves env phase i p ws).1 ≡ complete
unfolding dispatch_waves
dispatch_waves-complete env phase i p [] u = refl
dispatch_waves-complete env phase i p (w ∷ ws) u =
    rw (u.never_over i, close_steps-written env phase p (wave_results env i p.failed w) u)
      (dispatch_waves-complete env phase (suc i) _ ws u)

keep-append :
    (f : StepResult → Bool) (l m : List StepResult) → keep f (l ++ m) ≡ keep f l ++ keep f m
keep-append f [] m = refl
keep-append f (r ∷ l) m =
    if-both (λ x. x ≡ (if f r then r ∷ keep f l else keep f l) ++ keep f m) (f r) _ _
      (λ e. rw e (ap (λ x. r ∷ x) (keep-append f l m))) (λ e. rw e (keep-append f l m))

total_from-last :
    (spent : ℕ × ℕ) (l : List StepResult) (q : StepResult)
    → total_from spent (l ++ q ∷ []) ≡ add_spent q (total_from spent l)
unfolding total_from
total_from-last spent [] q = refl
total_from-last spent (r ∷ l) q = total_from-last (add_spent r spent) l q

-- What is measured, recorded and spent, against what is closed.
pub record Accounted (p : Progress) (recorded : List StepResult) : Type 0 where
  pub measures : p.measured ≡ keep counts p.closed
  pub records : p.recorded ≡ recorded ++ p.closed
  pub spends : p.spent ≡ total_spent p.closed

close_step-Accounted :
    (phase : Str) (p : Progress) (r : StepResult) (recorded : List StepResult)
    → Accounted p recorded
    → Accounted (close_step phase p r) recorded
unfolding close_step total_spent
close_step-Accounted phase p r recorded a = record {
  measures =
      let q = in_phase phase r in
      if-both (λ x. x ≡ keep counts (p.closed ++ q ∷ [])) (counts r) _ _
        (λ e. rw (keep-append counts p.closed (q ∷ []), a.measures, e) refl)
        (λ e.
          rw (keep-append counts p.closed (q ∷ []), a.measures, e)
            (sym (append_nil (keep counts p.closed))));
  records =
      ap (λ x. x ++ in_phase phase r ∷ []) a.records
      ∙ append_assoc recorded p.closed (in_phase phase r ∷ []);
  spends = ap (add_spent r) a.spends ∙ sym (total_from-last (0, 0) p.closed (in_phase phase r));
}

close_steps-Accounted :
    (env : Surroundings) (phase : Str) (p : Progress) (done recorded : List StepResult)
    → Accounted p recorded
    → Accounted (close_steps env phase p done).0 recorded
unfolding close_steps
close_steps-Accounted env phase p [] recorded a = a
close_steps-Accounted env phase p (r ∷ done) recorded a =
    let b = close_step-Accounted phase p r recorded a in
    if-both {A = Progress × Bool} (λ x. Accounted x.0 recorded)
      (env.saved (length (close_step phase p r).recorded)) _ _
      (λ e. close_steps-Accounted env phase (close_step phase p r) done recorded b) (λ e. b)

dispatch_waves-Accounted :
    (env : Surroundings) (phase : Str) (i : ℕ) (p : Progress) (ws : List (List Step))
    (recorded : List StepResult)
    → Accounted p recorded
    → Accounted (dispatch_waves env phase i p ws).0 recorded
unfolding dispatch_waves
dispatch_waves-Accounted env phase i p [] recorded a = a
dispatch_waves-Accounted env phase i p (w ∷ ws) recorded a =
    let done = wave_results env i p.failed w in
    let b = close_steps-Accounted env phase p done recorded a in
    if-both {A = Progress × Ending} (λ x. Accounted x.0 recorded) (env.over i) _ _ (λ e. a)
      (λ e.
        if-both {A = Progress × Ending} (λ x. Accounted x.0 recorded)
          (close_steps env phase p done).1 _ _
          (λ f. dispatch_waves-Accounted env phase (suc i) _ ws recorded b) (λ f. b))

steps_of-append : (l m : List StepResult) → steps_of (l ++ m) ≡ steps_of l ++ steps_of m
steps_of-append [] m = refl
steps_of-append (r ∷ l) m = ap (λ x. without_share r.step ∷ x) (steps_of-append l m)

plain-append : (l m : List Step) → plain (l ++ m) ≡ plain l ++ plain m
plain-append [] m = refl
plain-append (s ∷ l) m = ap (λ x. without_share s ∷ x) (plain-append l m)

steps_of-in_phase :
    (phase : Str) (l : List StepResult) → steps_of (map (in_phase phase) l) ≡ steps_of l
steps_of-in_phase phase [] = refl
steps_of-in_phase phase (r ∷ l) = ap (λ x. without_share r.step ∷ x) (steps_of-in_phase phase l)

-- What a dispatch that ends complete closes: all steps of the waves, behind what was closed.
abbrev ClosesAll : Progress → List (List Step) → Progress → Type 0
ClosesAll p ws q =
    (later : List StepResult) × (q.closed ≡ p.closed ++ later)
    × Perm (steps_of later) (plain (all_of ws))

wave-complete :
    (over written : Bool) (p q z : Progress) (rest : Progress × Ending)
    → (if over then (p, context_over) else if written then rest else (q, not_saved)) ≡ (z, complete)
    → (written ≡ true) × (rest ≡ (z, complete))
wave-complete true written p q z rest e = absurd (cc e)
wave-complete false true p q z rest e = (refl, e)
wave-complete false false p q z rest e = absurd (cc e)

pub dispatch_waves-all :
    (env : Surroundings) (phase : Str) (i : ℕ) (p q : Progress) (ws : List (List Step))
    → dispatch_waves env phase i p ws ≡ (q, complete)
    → ClosesAll p ws q
unfolding dispatch_waves
dispatch_waves-all env phase i p q [] e =
    ([], ap (λ x. x.closed) (sym (ap (λ x. x.0) e)) ∙ sym (append_nil p.closed), Perm.refl [])
dispatch_waves-all env phase i p q (w ∷ ws) e =
    let done = wave_results env i p.failed w in
    let p' = (close_steps env phase p done).0 in
    let c = close_steps-Closes env phase p done in
    let (written, rest) = wave-complete (env.over i) (close_steps env phase p done).1 p p' q _ e in
    let (later, closed, perm) = dispatch_waves-all env phase (suc i) p' q ws rest in
    let same : steps_of c.now ≡ steps_of done =
      ap steps_of (c.whole written) ∙ steps_of-in_phase phase done in
    (
      c.now ++ later,
      closed ∙ (ap (λ x. x ++ later) c.closed ∙ append_assoc p.closed c.now later),
      rw (steps_of-append c.now later, plain-append w (all_of ws), same)
          (Perm.append (wave_results-perm env i p.failed w) perm),
    )

-- Where the plan has waves behind the steps that are finished, the context is never over and every
-- record is written, a dispatch ends with every wave closed. The steps that it closed are those of
-- the plan that were not finished, each as often as the plan has it and unchanged but for the share
-- cut for it; the record holds them behind those that it held; what is measured are those that were
-- dispatched, answered neither from the cache nor with another call, and were not canceled, in the
-- order in which they were closed; and what the phase spent is the total over them.
pub dispatch-complete :
    (env : Surroundings) (plan : Plan) (phase : Str) (steps recorded : List StepResult)
    (already_ok : List Str) (ws : List (List Step))
    → Undisturbed env
    → layers_after plan (ids_of steps ++ already_ok) ≡ layers ws
    → (p : Progress) × (dispatch env plan phase steps recorded already_ok ≡ ended p complete)
      × Perm (steps_of p.closed) (plain (keep (unfinished (ids_of steps ++ already_ok)) plan.steps))
      × Accounted p recorded
unfolding dispatch dispatch_layers total_spent
dispatch-complete env plan phase steps recorded already_ok ws u e =
    let start = starting_progress steps recorded in
    let z = dispatch_waves env phase 0 start ws in
    let c = dispatch_waves-complete env phase 0 start ws u in
    let (later, closed, perm) =
      dispatch_waves-all env phase 0 start z.0 ws (ap (λ x. (z.0, x)) c) in
    let (scheduled, order) = layers_after-Scheduled plan (ids_of steps ++ already_ok) ws e in
    let fresh : Accounted start recorded = record {
      measures = refl;
      records = sym (append_nil recorded);
      spends = refl;
    } in
    (
      z.0,
      rw e (ap (ended z.0) c),
      rw closed (Perm.trans perm (Perm.map without_share scheduled)),
      dispatch_waves-Accounted env phase 0 start ws recorded fresh,
    )
