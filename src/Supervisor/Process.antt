-- ===== src/Supervisor/Process.antt =====
-- internal/supervisor/process.go: one managed process. Each part that holds the lock, and each wait
-- of `run` on the child, on a timer or on the channel, is one step; parts of different callers and of
-- `run` interleave freely. An activation is one goroutine in `run`, and its channel is closed or
-- not; both have the number of the activation. The child, the probe and the clock are outside: what
-- they do is the argument of the step. Process ids, the endpoint and the session are left out.
pub mod Single
pub mod Budget
pub mod Latch
use atenea.Prelude.{
  ℕ, suc, ◌+◌, ◌-◌, Bool, true, false, not, ◌==◌, ◌&&◌, ltb, leb, List, [], ◌∷◌, if◌then◌else◌,
  update,
}

pub record Spec : Type 0 where
  pub restart_limit : ℕ
  pub stable_after : ℕ
  pub idle_timeout : ℕ

pub data State : Type 0 where
  stopped starting ready restarting down : State

-- Where an activation stands: no child yet, a child that has not answered, a child that serves
-- since an instant, a spawn that ended, the pause before the next one, or nothing left to run.
pub data Phase : Type 0 where
  spawning waiting : Phase
  serving : (since : ℕ) → Phase
  failed : (stable_for : ℕ) → Phase
  deliberate : Phase
  pausing : Phase
  ended : Phase

pub record Process : Type 0 where
  pub state : State
  pub attempts : ℕ
  pub total_restarts : ℕ
  pub inflight : ℕ
  pub last_used : ℕ
  pub stopping : Bool
  -- How many activations there were; the channel of the process is that of the last one.
  pub begun : ℕ
  pub phase : ℕ → Phase
  pub closed : ℕ → Bool
  -- The reaper found the process idle, and has not asked it to stop yet.
  pub found_idle : Bool

-- `newProcess`
abbrev pub new_process : ℕ → Process
new_process now = record {
  state = stopped;
  attempts = 0;
  total_restarts = 0;
  inflight = 0;
  last_used = now;
  stopping = false;
  begun = 0;
  phase = λ a. ended;
  closed = λ a. false;
  found_idle = false;
}

abbrev pub no_child : State → Bool
no_child stopped = true
no_child down = true
no_child _ = false

abbrev is_stopped : State → Bool
is_stopped stopped = true
is_stopped _ = false

abbrev is_ready : State → Bool
is_ready ready = true
is_ready _ = false

-- `beginLocked`
unfoldable pub begin_locked : Process → Process
begin_locked p = record p {
  state = starting;
  attempts = 0;
  begun = suc p.begun;
  phase = update p.phase p.begun spawning;
}

-- The first part of `ensureReady`, which may begin an activation.
unfoldable pub ensure_ready : Process → Process
unfolding begin_locked
ensure_ready p = if p.stopping then p else if is_stopped p.state then begin_locked p else p

unfoldable pub acquire : Process → Process
acquire p = record p { inflight = suc p.inflight }

unfoldable pub release : ℕ → Process → Process
release now p = record p { inflight = p.inflight - 1; last_used = now }

-- The first part of `stopIfIdle`; `now - last_used` is `time.Since`, which a later use makes 0.
unfoldable pub look_idle : Spec → ℕ → Process → Process
look_idle spec now p = record p {
  found_idle = is_ready p.state && ((p.inflight == 0) && leb spec.idle_timeout (now - p.last_used));
}

-- `requestStop`; the channel of the process is the last one.
unfoldable pub request_stop : Process → Process
request_stop p =
    if no_child p.state then p else record p { closed = update p.closed (p.begun - 1) true }

-- The second part of `stopIfIdle`.
unfoldable pub stop_idle : Process → Process
unfolding request_stop
stop_idle p = if p.found_idle then record (request_stop p) { found_idle = false } else p

-- The first part of `shutdown`; the second is `request_stop`.
unfoldable pub latch : Process → Process
latch p = record p { stopping = true }

-- The last part of `stop`, where the process did not stop within the bound.
unfoldable pub give_up : Process → Process
give_up p = if no_child p.state then p else record p { state = down }

abbrev pub moved : ℕ → Phase → Process → Process
moved a f p = record p { phase = update p.phase a f }

-- `cmd.Start` fails, or the child runs.
unfoldable pub launch : ℕ → Bool → Process → Phase → Process
launch a runs p spawning = moved a (if runs then waiting else failed 0) p
launch a runs p _ = p

-- What `waitForReady` returns.
pub data ReadyOutcome : Type 0 where
  ready_reached ready_never_came ready_stop_requested : ReadyOutcome

-- The end of `waitForReady`. A stop is seen only on a closed channel.
unfoldable pub answer : ℕ → ℕ → ReadyOutcome → Process → Phase → Process
answer a now ready_reached p waiting = record (moved a (serving now) p) { state = ready }
answer a now ready_never_came p waiting = moved a (failed 0) p
answer a now ready_stop_requested p waiting = if p.closed a then moved a deliberate p else p
answer a now outcome p _ = p

-- The child exits while it serves.
unfoldable pub exit : ℕ → ℕ → Process → Phase → Process
exit a now p (serving since) = moved a (failed (now - since)) p
exit a now p _ = p

-- The channel is closed while the child serves; `gracefulStop` ends with the child gone.
unfoldable pub obey : ℕ → ℕ → Process → Phase → Process
obey a now p (serving since) = if p.closed a then moved a deliberate p else p
obey a now p _ = p

-- The attempts behind a failure: a stable server starts a fresh budget.
abbrev pub next_attempts : Spec → ℕ → ℕ → ℕ
next_attempts spec stable_for attempts =
    suc (if leb spec.stable_after stable_for then 0 else attempts)

-- The locked part of `run` behind `spawnOnce`.
unfoldable pub book : Spec → ℕ → Process → Phase → Process
book spec a p deliberate = record (moved a ended p) { state = stopped }
book spec a p (failed stable_for) =
    let attempts = next_attempts spec stable_for p.attempts in
    let over = ltb spec.restart_limit attempts in
    record (moved a (if over then ended else pausing) p) {
      attempts = attempts;
      total_restarts = suc p.total_restarts;
      state = if over then down else restarting;
    }
book spec a p _ = p

-- The pause is over, and the next spawn follows.
unfoldable pub resume : ℕ → Process → Phase → Process
resume a p pausing = record (moved a spawning p) { state = starting }
resume a p _ = p

-- The channel is closed during the pause.
unfoldable pub leave : ℕ → Process → Phase → Process
leave a p pausing = if p.closed a then record (moved a ended p) { state = stopped } else p
leave a p _ = p

-- A part that the callers, the reaper, the supervisor, or an activation runs.
pub data Event : Type 0 where
  ensures acquires requests latches gives_up stops_idle : Event
  releases looks_idle : (now : ℕ) → Event
  launches : ℕ → Bool → Event
  answers : ℕ → ℕ → ReadyOutcome → Event
  exits obeys : ℕ → ℕ → Event
  books resumes leaves : ℕ → Event

unfoldable pub step : Spec → Process → Event → Process
unfolding ensure_ready acquire release look_idle request_stop stop_idle latch give_up launch answer
    exit obey book resume leave
step spec p ensures = ensure_ready p
step spec p acquires = acquire p
step spec p requests = request_stop p
step spec p latches = latch p
step spec p gives_up = give_up p
step spec p stops_idle = stop_idle p
step spec p (releases now) = release now p
step spec p (looks_idle now) = look_idle spec now p
step spec p (launches a runs) = launch a runs p (p.phase a)
step spec p (answers a now outcome) = answer a now outcome p (p.phase a)
step spec p (exits a now) = exit a now p (p.phase a)
step spec p (obeys a now) = obey a now p (p.phase a)
step spec p (books a) = book spec a p (p.phase a)
step spec p (resumes a) = resume a p (p.phase a)
step spec p (leaves a) = leave a p (p.phase a)

abbrev pub run : Spec → Process → List Event → Process
run spec p [] = p
run spec p (e ∷ es) = run spec (step spec p e) es
