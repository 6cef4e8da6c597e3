-- ===== src/Supervisor/Process/Latch.antt =====
-- internal/supervisor/process.go: behind the latch of a shutdown nothing begins.
use atenea.Prelude.{
  ℕ, ◌-◌, ◌≡◌, refl, ◌∙◌, Bool, true, false, ==_iff, List, [], ◌∷◌, if-both, update, arith,
}
use atenea.Supervisor.Process.{
  Spec, State, stopped, starting, ready, down, Phase, spawning, waiting, serving, failed,
  deliberate, pausing, ended, Process, no_child, ensure_ready, acquire, release, look_idle,
  request_stop, stop_idle, latch, give_up, moved, launch, ReadyOutcome, ready_reached,
  ready_never_came, ready_stop_requested, answer, exit, obey, book, resume, leave, Event, ensures,
  acquires, requests, latches, gives_up, stops_idle, releases, looks_idle, launches, answers, exits,
  obeys, books, resumes, leaves, step, run,
}
use atenea.Supervisor.Process.Single.{is_live}

-- What a part leaves: the latch, no further activation, and no ended activation live.
pub record Latched (p q : Process) : Type 0 where
  pub stopping : q.stopping ≡ true
  pub same_begun : q.begun ≡ p.begun
  pub no_more_live : (a : ℕ) → is_live (p.phase a) ≡ false → is_live (q.phase a) ≡ false

module _ (p : Process) (s : p.stopping ≡ true) where
  unchanged-Latched : Latched p p
  unchanged-Latched = record { stopping = s; same_begun = refl; no_more_live = λ a d. d }

  -- What touches no activation.
  kept-Latched :
      (st : State) (inflight last_used attempts restarts : ℕ) (found : Bool) (closed : ℕ → Bool)
      → Latched p (record p {
        state = st;
        inflight = inflight;
        last_used = last_used;
        attempts = attempts;
        total_restarts = restarts;
        closed = closed;
        found_idle = found;
      })
  kept-Latched st inflight last_used attempts restarts found closed = record {
    stopping = s;
    same_begun = refl;
    no_more_live = λ a d. d;
  }

  moved-Latched :
      (a : ℕ) (f g : Phase) (st : State) (attempts restarts : ℕ)
      → p.phase a ≡ f
      → is_live f ≡ true
      → Latched p
          (record (moved a g p) { state = st; attempts = attempts; total_restarts = restarts })
  moved-Latched a f g st attempts restarts e l = record {
    stopping = s;
    same_begun = refl;
    no_more_live = λ b d. ground (arith, ==_iff b a, e, l, d);
  }

  thread :
      (a : ℕ) (f g : Phase) (st : State)
      → p.phase a ≡ f
      → is_live f ≡ true
      → Latched p (record (moved a g p) { state = st })
  thread a f g st e l = moved-Latched a f g st p.attempts p.total_restarts e l

  launch-Latched : (a : ℕ) (runs : Bool) (f : Phase) → p.phase a ≡ f → Latched p (launch a runs p f)
  unfolding launch
  launch-Latched a runs spawning e = thread a spawning _ p.state e refl
  launch-Latched a runs f e = unchanged-Latched

  answer-Latched :
      (a now : ℕ) (outcome : ReadyOutcome) (f : Phase)
      → p.phase a ≡ f
      → Latched p (answer a now outcome p f)
  unfolding answer
  answer-Latched a now ready_reached waiting e = thread a waiting _ ready e refl
  answer-Latched a now ready_never_came waiting e = thread a waiting _ p.state e refl
  answer-Latched a now ready_stop_requested waiting e =
      if-both (Latched p) (p.closed a) _ p (λ c. thread a waiting _ p.state e refl)
        (λ c. unchanged-Latched)
  answer-Latched a now outcome f e = unchanged-Latched

  exit-Latched : (a now : ℕ) (f : Phase) → p.phase a ≡ f → Latched p (exit a now p f)
  unfolding exit
  exit-Latched a now (serving since) e = thread a (serving since) _ p.state e refl
  exit-Latched a now f e = unchanged-Latched

  obey-Latched : (a now : ℕ) (f : Phase) → p.phase a ≡ f → Latched p (obey a now p f)
  unfolding obey
  obey-Latched a now (serving since) e =
      if-both (Latched p) (p.closed a) _ p (λ c. thread a (serving since) _ p.state e refl)
        (λ c. unchanged-Latched)
  obey-Latched a now f e = unchanged-Latched

  book-Latched : (spec : Spec) (a : ℕ) (f : Phase) → p.phase a ≡ f → Latched p (book spec a p f)
  unfolding book
  book-Latched spec a deliberate e = thread a deliberate ended stopped e refl
  book-Latched spec a (failed stable_for) e = moved-Latched a (failed stable_for) _ _ _ _ e refl
  book-Latched spec a f e = unchanged-Latched

  resume-Latched : (a : ℕ) (f : Phase) → p.phase a ≡ f → Latched p (resume a p f)
  unfolding resume
  resume-Latched a pausing e = thread a pausing spawning starting e refl
  resume-Latched a f e = unchanged-Latched

  leave-Latched : (a : ℕ) (f : Phase) → p.phase a ≡ f → Latched p (leave a p f)
  unfolding leave
  leave-Latched a pausing e =
      if-both (Latched p) (p.closed a) _ p (λ c. thread a pausing ended stopped e refl)
        (λ c. unchanged-Latched)
  leave-Latched a f e = unchanged-Latched

  step-Latched : (spec : Spec) (e : Event) → Latched p (step spec p e)
  unfolding step acquire release look_idle latch ensure_ready request_stop stop_idle give_up
  step-Latched spec ensures =
      if-both (Latched p) p.stopping p _ (λ e. unchanged-Latched) (λ e. absurd (cc (s, e)))
  step-Latched spec requests =
      if-both (Latched p) (no_child p.state) p _ (λ e. unchanged-Latched)
        (λ e.
          kept-Latched p.state p.inflight p.last_used p.attempts p.total_restarts p.found_idle _)
  step-Latched spec gives_up =
      if-both (Latched p) (no_child p.state) p _ (λ e. unchanged-Latched)
        (λ e.
          kept-Latched down p.inflight p.last_used p.attempts p.total_restarts p.found_idle
            p.closed)
  step-Latched spec stops_idle =
      if-both (Latched p) p.found_idle _ p
        (λ f.
          if-both (λ q. Latched p (record q { found_idle = false })) (no_child p.state) p
            (record p { closed = update p.closed (p.begun - 1) true })
            (λ e.
              kept-Latched p.state p.inflight p.last_used p.attempts p.total_restarts false
                p.closed)
            (λ e. kept-Latched p.state p.inflight p.last_used p.attempts p.total_restarts false _))
        (λ f. unchanged-Latched)
  step-Latched spec acquires =
      kept-Latched p.state _ p.last_used p.attempts p.total_restarts p.found_idle p.closed
  step-Latched spec latches = record { stopping = refl; same_begun = refl; no_more_live = λ a d. d }
  step-Latched spec (releases now) =
      kept-Latched p.state _ now p.attempts p.total_restarts p.found_idle p.closed
  step-Latched spec (looks_idle now) =
      kept-Latched p.state p.inflight p.last_used p.attempts p.total_restarts _ p.closed
  step-Latched spec (launches a runs) = launch-Latched a runs (p.phase a) refl
  step-Latched spec (answers a now outcome) = answer-Latched a now outcome (p.phase a) refl
  step-Latched spec (exits a now) = exit-Latched a now (p.phase a) refl
  step-Latched spec (obeys a now) = obey-Latched a now (p.phase a) refl
  step-Latched spec (books a) = book-Latched spec a (p.phase a) refl
  step-Latched spec (resumes a) = resume-Latched a (p.phase a) refl
  step-Latched spec (leaves a) = leave-Latched a (p.phase a) refl

-- Once the latch of a shutdown is set, no parts of whoever, in any order, begin another activation
-- or clear the latch, and an activation that has ended stays ended: where none is left, no child
-- runs ever again.
pub run-Latched :
    (spec : Spec) (p : Process) (es : List Event) → p.stopping ≡ true → Latched p (run spec p es)
run-Latched spec p [] s = record { stopping = s; same_begun = refl; no_more_live = λ a d. d }
run-Latched spec p (e ∷ es) s =
    let one = step-Latched p s spec e in
    let rest = run-Latched spec (step spec p e) es one.stopping in
    record {
      stopping = rest.stopping;
      same_begun = rest.same_begun ∙ one.same_begun;
      no_more_live = λ a d. rest.no_more_live a (one.no_more_live a d);
    }
