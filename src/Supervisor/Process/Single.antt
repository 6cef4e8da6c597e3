-- ===== src/Supervisor/Process/Single.antt =====
-- internal/supervisor/process.go: one activation at a time, within its budget of restarts.
use atenea.Prelude.{
  ℕ, suc, ◌-◌, ◌≤◌, ◌≡◌, refl, Bool, true, false, ==_iff, ltb, List, [], ◌∷◌, Bool-cases, if-both,
  if◌then◌else◌, update, arith,
}
use atenea.Supervisor.Process.{
  Spec, State, stopped, starting, ready, restarting, down, Phase, spawning, waiting, serving,
  failed, deliberate, pausing, ended, Process, new_process, no_child, is_stopped, ensure_ready,
  acquire, release, look_idle, request_stop, stop_idle, latch, give_up, moved, launch, ReadyOutcome,
  ready_reached, ready_never_came, ready_stop_requested, answer, exit, obey, next_attempts, book,
  resume, leave, Event, ensures, acquires, requests, latches, gives_up, stops_idle, releases,
  looks_idle, launches, answers, exits, obeys, books, resumes, leaves, step, run,
}

abbrev pub is_live : Phase → Bool
is_live ended = false
is_live _ = true

-- A phase in which a child process runs.
abbrev pub has_child : Phase → Bool
has_child waiting = true
has_child (serving since) = true
has_child _ = false

pub record IsSound (spec : Spec) (p : Process) : Type 0 where
  pub last : (a : ℕ) → is_live (p.phase a) ≡ true → suc a ≡ p.begun
  pub idle : is_stopped p.state ≡ true → (a : ℕ) → is_live (p.phase a) ≡ false
  pub within : (a : ℕ) → is_live (p.phase a) ≡ true → p.attempts ≤ spec.restart_limit
  pub capped : p.attempts ≤ suc spec.restart_limit

module _ (spec : Spec) (p : Process) (s : IsSound spec p) where
  -- The live activation moves on, to a phase and a state.
  moved-IsSound :
      (a : ℕ) (f : Phase) (st : State) (n m : ℕ)
      → is_live (p.phase a) ≡ true
      → (is_stopped st ≡ true → is_live f ≡ false)
      → (is_live f ≡ true → n ≤ spec.restart_limit)
      → n ≤ suc spec.restart_limit
      → IsSound spec (record (moved a f p) { state = st; attempts = n; total_restarts = m })
  moved-IsSound a f st n m live quiet spent cap = record {
    last = λ b e. ground (arith, ==_iff b a, s.last a live, s.last b);
    idle = λ e b.
        ground (
          arith,
          e,
          ==_iff b a,
          quiet e,
          s.last a live,
          s.last b,
          Bool-cases (is_live (p.phase b)),
        );
    within = λ b e. ground (arith, ==_iff b a, spent, s.last a live, s.last b);
    capped = cap;
  }

  -- What touches no activation.
  kept-IsSound :
      (st : State) (inflight last_used : ℕ) (stopping found : Bool) (closed : ℕ → Bool)
      → (is_stopped st ≡ true → is_stopped p.state ≡ true)
      → IsSound spec (record p {
        state = st;
        inflight = inflight;
        last_used = last_used;
        stopping = stopping;
        closed = closed;
        found_idle = found;
      })
  kept-IsSound st inflight last_used stopping found closed h = record {
    last = s.last;
    idle = λ o. s.idle (h o);
    within = s.within;
    capped = s.capped;
  }

  request_stop-IsSound :
      (found : Bool) → IsSound spec (record (request_stop p) { found_idle = found })
  unfolding request_stop
  request_stop-IsSound found =
      if-both (λ q. IsSound spec (record q { found_idle = found })) (no_child p.state) p
        (record p { closed = update p.closed (p.begun - 1) true })
        (λ e. kept-IsSound p.state p.inflight p.last_used p.stopping found p.closed (λ h. h))
        (λ e. kept-IsSound p.state p.inflight p.last_used p.stopping found _ (λ h. h))

  requests-IsSound : IsSound spec (request_stop p)
  unfolding request_stop
  requests-IsSound =
      if-both (IsSound spec) (no_child p.state) p _ (λ e. s)
        (λ e. kept-IsSound p.state p.inflight p.last_used p.stopping p.found_idle _ (λ h. h))

  stop_idle-IsSound : IsSound spec (stop_idle p)
  unfolding stop_idle
  stop_idle-IsSound =
      if-both (IsSound spec) p.found_idle _ p (λ e. request_stop-IsSound false) (λ e. s)

  give_up-IsSound : IsSound spec (give_up p)
  unfolding give_up
  give_up-IsSound =
      if-both (IsSound spec) (no_child p.state) p _ (λ e. s)
        (λ e. kept-IsSound down p.inflight p.last_used p.stopping p.found_idle p.closed (λ h. cc h))

  -- A new activation begins only where none is left.
  ensure_ready-IsSound : IsSound spec (ensure_ready p)
  unfolding ensure_ready
  ensure_ready-IsSound =
      if-both (IsSound spec) p.stopping p _ (λ e. s)
        (λ e.
          if-both (IsSound spec) (is_stopped p.state) _ p
            (λ o. record {
              last = λ b l. ground (arith, ==_iff b p.begun, s.idle o b);
              idle = λ h b. cc h;
              within = λ b l. omega arith;
              capped = omega arith;
            })
            (λ o. s))

  -- The phase of a live activation with no stopped state.
  running : (a : ℕ) → is_live (p.phase a) ≡ true → is_stopped p.state ≡ true → ⊥
  running a live o = cc (live, s.idle o a)

  -- An activation moves on, and the state of the process stays or is one that has a child.
  shift-IsSound :
      (a : ℕ) (f : Phase) (st : State)
      → is_live (p.phase a) ≡ true
      → (is_stopped st ≡ true → is_stopped p.state ≡ true)
      → IsSound spec (record (moved a f p) { state = st })
  shift-IsSound a f st live h =
      moved-IsSound a f st p.attempts p.total_restarts live (λ o. absurd (running a live (h o)))
        (λ l. s.within a live) s.capped

  -- The end of an activation by a stop.
  finish-IsSound :
      (a : ℕ)
      → is_live (p.phase a) ≡ true
      → IsSound spec (record (moved a ended p) { state = stopped })
  finish-IsSound a live =
      moved-IsSound a ended stopped p.attempts p.total_restarts live (λ o. refl) (λ l. cc l)
        s.capped

  is_live-phase :
      (a : ℕ) (f : Phase) → p.phase a ≡ f → is_live f ≡ true → is_live (p.phase a) ≡ true
  is_live-phase a f e l = rw e l

  launch-IsSound :
      (a : ℕ) (runs : Bool) (f : Phase) → p.phase a ≡ f → IsSound spec (launch a runs p f)
  unfolding launch
  launch-IsSound a runs spawning e =
      shift-IsSound a _ p.state (is_live-phase a spawning e refl) (λ o. o)
  launch-IsSound a runs f e = s

  answer-IsSound :
      (a now : ℕ) (outcome : ReadyOutcome) (f : Phase)
      → p.phase a ≡ f
      → IsSound spec (answer a now outcome p f)
  unfolding answer
  answer-IsSound a now ready_reached waiting e =
      shift-IsSound a (serving now) ready (is_live-phase a waiting e refl) (λ o. cc o)
  answer-IsSound a now ready_never_came waiting e =
      shift-IsSound a (failed 0) p.state (is_live-phase a waiting e refl) (λ o. o)
  answer-IsSound a now ready_stop_requested waiting e =
      if-both (IsSound spec) (p.closed a) _ p
        (λ c. shift-IsSound a deliberate p.state (is_live-phase a waiting e refl) (λ o. o)) (λ c. s)
  answer-IsSound a now outcome f e = s

  exit-IsSound : (a now : ℕ) (f : Phase) → p.phase a ≡ f → IsSound spec (exit a now p f)
  unfolding exit
  exit-IsSound a now (serving since) e =
      shift-IsSound a (failed (now - since)) p.state (is_live-phase a (serving since) e refl)
        (λ o. o)
  exit-IsSound a now f e = s

  obey-IsSound : (a now : ℕ) (f : Phase) → p.phase a ≡ f → IsSound spec (obey a now p f)
  unfolding obey
  obey-IsSound a now (serving since) e =
      if-both (IsSound spec) (p.closed a) _ p
        (λ c. shift-IsSound a deliberate p.state (is_live-phase a (serving since) e refl) (λ o. o))
        (λ c. s)
  obey-IsSound a now f e = s

  -- A failure spends the budget, or starts it afresh; past it the activation ends.
  book-IsSound : (a : ℕ) (f : Phase) → p.phase a ≡ f → IsSound spec (book spec a p f)
  unfolding book
  book-IsSound a deliberate e = finish-IsSound a (is_live-phase a deliberate e refl)
  book-IsSound a (failed stable_for) e =
      let live = is_live-phase a (failed stable_for) e refl in
      let n = next_attempts spec stable_for p.attempts in
      let within = s.within a live in
      moved-IsSound a (if ltb spec.restart_limit n then ended else pausing)
        (if ltb spec.restart_limit n then down else restarting) n (suc p.total_restarts) live
        (ground arith) (ground arith) (ground arith)
  book-IsSound a f e = s

  resume-IsSound : (a : ℕ) (f : Phase) → p.phase a ≡ f → IsSound spec (resume a p f)
  unfolding resume
  resume-IsSound a pausing e =
      shift-IsSound a spawning starting (is_live-phase a pausing e refl) (λ o. cc o)
  resume-IsSound a f e = s

  leave-IsSound : (a : ℕ) (f : Phase) → p.phase a ≡ f → IsSound spec (leave a p f)
  unfolding leave
  leave-IsSound a pausing e =
      if-both (IsSound spec) (p.closed a) _ p
        (λ c. finish-IsSound a (is_live-phase a pausing e refl)) (λ c. s)
  leave-IsSound a f e = s

  pub step-IsSound : (e : Event) → IsSound spec (step spec p e)
  unfolding step acquire release look_idle latch
  step-IsSound ensures = ensure_ready-IsSound
  step-IsSound acquires =
      kept-IsSound p.state _ p.last_used p.stopping p.found_idle p.closed (λ h. h)
  step-IsSound requests = requests-IsSound
  step-IsSound latches =
      kept-IsSound p.state p.inflight p.last_used true p.found_idle p.closed (λ h. h)
  step-IsSound gives_up = give_up-IsSound
  step-IsSound stops_idle = stop_idle-IsSound
  step-IsSound (releases now) = kept-IsSound p.state _ now p.stopping p.found_idle p.closed (λ h. h)
  step-IsSound (looks_idle now) =
      kept-IsSound p.state p.inflight p.last_used p.stopping _ p.closed (λ h. h)
  step-IsSound (launches a runs) = launch-IsSound a runs (p.phase a) refl
  step-IsSound (answers a now outcome) = answer-IsSound a now outcome (p.phase a) refl
  step-IsSound (exits a now) = exit-IsSound a now (p.phase a) refl
  step-IsSound (obeys a now) = obey-IsSound a now (p.phase a) refl
  step-IsSound (books a) = book-IsSound a (p.phase a) refl
  step-IsSound (resumes a) = resume-IsSound a (p.phase a) refl
  step-IsSound (leaves a) = leave-IsSound a (p.phase a) refl

pub new-IsSound : (spec : Spec) (now : ℕ) → IsSound spec (new_process now)
new-IsSound spec now = record {
  last = λ a l. cc l;
  idle = λ o a. refl;
  within = λ a l. cc l;
  capped = omega arith;
}

pub run-IsSound :
    (spec : Spec) (p : Process) (es : List Event) → IsSound spec p → IsSound spec (run spec p es)
run-IsSound spec p [] s = s
run-IsSound spec p (e ∷ es) s = run-IsSound spec (step spec p e) es (step-IsSound spec p s e)

has_child-is_live : (f : Phase) → has_child f ≡ true → is_live f ≡ true
has_child-is_live ended h = cc h
has_child-is_live f h = refl

-- One activation and one child at a time, none in a stopped process, and the budget.
pub record IsContained (spec : Spec) (p : Process) : Type 0 where
  pub one_live : (a b : ℕ) → is_live (p.phase a) ≡ true → is_live (p.phase b) ≡ true → a ≡ b
  pub one_child : (a b : ℕ) → has_child (p.phase a) ≡ true → has_child (p.phase b) ≡ true → a ≡ b
  pub stopped_empty : p.state ≡ stopped → (a : ℕ) → is_live (p.phase a) ≡ false
  pub capped : p.attempts ≤ suc spec.restart_limit
  pub within : (a : ℕ) → is_live (p.phase a) ≡ true → p.attempts ≤ spec.restart_limit

IsSound-IsContained : (spec : Spec) (p : Process) → IsSound spec p → IsContained spec p
IsSound-IsContained spec p s = record {
  one_live = λ a b l m. omega (arith, s.last a l, s.last b m);
  one_child =
      λ a b l m. omega (arith, s.last a (has_child-is_live _ l), s.last b (has_child-is_live _ m));
  stopped_empty = λ e a. s.idle (rw e refl) a;
  capped = s.capped;
  within = s.within;
}

-- In every state that the parts of callers, of the reaper, of a shutdown and of the activations
-- reach from a new process, in any order and with any answers of the child: at most one activation
-- is live, and at most one child runs; a stopped process has no live activation; and the failures
-- that count against the budget are at most one more than the restart limit, and within it while an
-- activation is live.
pub run-IsContained :
    (spec : Spec) (now : ℕ) (es : List Event) → IsContained spec (run spec (new_process now) es)
run-IsContained spec now es =
    IsSound-IsContained spec _ (run-IsSound spec (new_process now) es (new-IsSound spec now))
