-- ===== src/Supervisor/Process/Budget.antt =====
-- internal/supervisor/process.go: the process refines a server with a budget of failures.
use mathlib.Core.Path.{subst}
use atenea.Prelude.{
  ℕ, suc, ◌-◌, ◌<◌, ◌≤◌, ◌≡◌, refl, sym, ap, ◌∙◌, ◌⊎◌, inl, inr, Bool, true, false, ltb, leb, List,
  [], ◌∷◌, Bool-cases, if-both, if◌then◌else◌, update, arith,
}
use atenea.Supervisor.Process.{
  Spec, State, stopped, starting, ready, restarting, down, Phase, spawning, waiting, serving,
  failed, deliberate, pausing, ended, Process, no_child, is_stopped, ensure_ready, acquire, release,
  look_idle, request_stop, stop_idle, latch, give_up, moved, launch, ReadyOutcome, ready_reached,
  ready_never_came, ready_stop_requested, answer, exit, obey, next_attempts, book, resume, leave,
  Event, ensures, acquires, requests, latches, gives_up, stops_idle, releases, looks_idle, launches,
  answers, exits, obeys, books, resumes, leaves, step,
}
use atenea.Supervisor.Process.Single.{is_live, IsSound}

-- What a caller is promised: a server is idle, or up with so many failures since it was last stable
-- or begun; or it has exhausted its budget, or was abandoned by a shutdown that waited in vain.
pub data Server : Type 0 where
  idle : Server
  up : (failures : ℕ) → Server
  exhausted abandoned : Server

-- Nothing leads away from an exhausted server.
pub data Edge (limit : ℕ) : Server → Server → Type 0 where
  begins : Edge limit idle (up 0)
  fails : (n : ℕ) → n < limit → Edge limit (up n) (up (suc n))
  fails_afresh : (n : ℕ) → 0 < limit → Edge limit (up n) (up 1)
  exhausts : (n : ℕ) → limit ≤ n → Edge limit (up n) exhausted
  stops : (n : ℕ) → Edge limit (up n) idle
  abandons : (n : ℕ) → Edge limit (up n) abandoned
  comes_late : (t : Server) → Edge limit abandoned t

abbrev pub view_of : State → (live : Bool) → ℕ → Server
view_of stopped live n = idle
view_of down true n = abandoned
view_of down false n = exhausted
view_of _ live n = up n

-- What the process stands for.
abbrev pub view : Process → Server
view p = view_of p.state (is_live (p.phase (p.begun - 1))) p.attempts

-- A part changes nothing of it, or follows an edge.
abbrev pub Move : ℕ → Server → Server → Type 0
Move limit s t = (s ≡ t) ⊎ Edge limit s t

-- A process with a child, or about to have one, has a live activation.
abbrev IsBusy : Process → Type 0
IsBusy p = no_child p.state ≡ false → is_live (p.phase (p.begun - 1)) ≡ true

view_of-up : (st : State) (live : Bool) (n : ℕ) → no_child st ≡ false → view_of st live n ≡ up n
view_of-up stopped live n h = cc h
view_of-up starting live n h = refl
view_of-up ready live n h = refl
view_of-up restarting live n h = refl
view_of-up down live n h = cc h

view_of-live :
    (st : State) (n : ℕ)
    → is_stopped st ≡ false
    → (no_child st ≡ false) ⊎ (view_of st true n ≡ abandoned)
view_of-live stopped n h = cc h
view_of-live starting n h = inl refl
view_of-live ready n h = inl refl
view_of-live restarting n h = inl refl
view_of-live down n h = inr refl

view_of-idle : (st : State) (live : Bool) (n : ℕ) → is_stopped st ≡ true → view_of st live n ≡ idle
view_of-idle stopped live n h = refl
view_of-idle starting live n h = cc h
view_of-idle ready live n h = cc h
view_of-idle restarting live n h = cc h
view_of-idle down live n h = cc h

pausing-live :
    (limit n : ℕ)
    → no_child (if ltb limit n then down else restarting) ≡ false
    → is_live (if ltb limit n then ended else pausing) ≡ true
pausing-live limit n h = ground arith

-- What a failure does to the budget, where it is fresh or `n` failures are spent.
spent :
    (limit n : ℕ) (fresh : Bool)
    → n ≤ limit
    → Move limit (up n) (
        view_of
          (if ltb limit (suc (if fresh then 0 else n)) then down else restarting)
          (is_live (if ltb limit (suc (if fresh then 0 else n)) then ended else pausing))
          (suc (if fresh then 0 else n)))
spent limit n true h = elim (Bool-cases (ltb limit 1)) [
  | inl e ↦ rw e (inr (exhausts n (ground (arith, e))))
  | inr e ↦ rw e (inr (fails_afresh n (ground (arith, e))))
]
spent limit n false h = elim (Bool-cases (ltb limit (suc n))) [
  | inl e ↦ rw e (inr (exhausts n (ground (arith, e))))
  | inr e ↦ rw e (inr (fails n (ground (arith, e))))
]

module _ (spec : Spec) (p : Process) (s : IsSound spec p) (busy : IsBusy p) where
  abbrev Refines : Process → Type 0
  Refines q = IsBusy q × Move spec.restart_limit (view p) (view q)

  unchanged-Refines : Refines p
  unchanged-Refines = (busy, inl refl)

  last_live : (a : ℕ) → is_live (p.phase a) ≡ true → p.begun - 1 ≡ a
  last_live a l = omega (arith, s.last a l)

  -- The live activation moves on.
  moved-Refines :
      (a : ℕ) (f g : Phase) (st : State) (n m : ℕ)
      → p.phase a ≡ f
      → is_live f ≡ true
      → (no_child st ≡ false → is_live g ≡ true)
      → (no_child p.state ≡ false
          → Move spec.restart_limit (up p.attempts) (view_of st (is_live g) n))
      → Refines (record (moved a g p) { state = st; attempts = n; total_restarts = m })
  moved-Refines a f g st n m e l b go =
      let limit = spec.restart_limit in
      let live : is_live (p.phase a) ≡ true = rw e l in
      let at_last : update p.phase a g (p.begun - 1) ≡ g = ground (arith, last_live a live) in
      let source : is_live (p.phase (p.begun - 1)) ≡ true = rw (last_live a live) live in
      let not_stopped : is_stopped p.state ≡ false = elim (Bool-cases (is_stopped p.state)) [
        | inl o ↦ absurd (cc (live, s.idle o a))
        | inr o ↦ o
      ] in
      (
        λ h. subst (λ x. is_live x ≡ true) (sym at_last) (b h),
        subst (λ x. Move limit (view p) (view_of st (is_live x) n)) (sym at_last)
            (elim (view_of-live p.state p.attempts not_stopped) [
              | inl h ↦
                  subst (λ v. Move limit v (view_of st (is_live g) n))
                    (sym (view_of-up p.state _ p.attempts h)) (go h)
              | inr h ↦
                  let from : view p ≡ abandoned =
                    ap (λ x. view_of p.state x p.attempts) source ∙ h in
                  subst (λ v. Move limit v (view_of st (is_live g) n)) (sym from)
                    (inr (comes_late _))
            ]),
      )

  -- It stays live, in the same state or another one with a child.
  shift-Refines :
      (a : ℕ) (f g : Phase)
      → p.phase a ≡ f
      → is_live f ≡ true
      → is_live g ≡ true
      → Refines (moved a g p)
  shift-Refines a f g e l k =
      moved-Refines a f g p.state p.attempts p.total_restarts e l (λ h. k)
        (λ h. inl (sym (view_of-up p.state _ p.attempts h)))

  finish-Refines :
      (a : ℕ) (f : Phase)
      → p.phase a ≡ f
      → is_live f ≡ true
      → Refines (record (moved a ended p) { state = stopped })
  finish-Refines a f e l =
      moved-Refines a f ended stopped p.attempts p.total_restarts e l (λ h. cc h)
        (λ h. inr (stops p.attempts))

  -- What touches no activation, nor the state.
  kept-Refines :
      (inflight last_used : ℕ) (stopping found : Bool) (closed : ℕ → Bool)
      → Refines (record p {
        inflight = inflight;
        last_used = last_used;
        stopping = stopping;
        closed = closed;
        found_idle = found;
      })
  kept-Refines inflight last_used stopping found closed = (busy, inl refl)

  ensure_ready-Refines : Refines (ensure_ready p)
  unfolding ensure_ready
  ensure_ready-Refines =
      if-both Refines p.stopping p _ (λ e. unchanged-Refines)
        (λ e.
          if-both Refines (is_stopped p.state) _ p
            (λ o. (
              λ h. ground arith,
              subst (λ v. Move spec.restart_limit v (up 0))
                  (sym (view_of-idle p.state _ p.attempts o)) (inr begins),
            ))
            (λ o. unchanged-Refines))

  give_up-Refines : Refines (give_up p)
  unfolding give_up
  give_up-Refines =
      if-both Refines (no_child p.state) p _ (λ e. unchanged-Refines)
        (λ e. (
          λ h. cc h,
          rw (busy e, view_of-up p.state true p.attempts e) (inr (abandons p.attempts)),
        ))

  -- A failure: one more, or the first of a fresh budget, or one too many.
  book-Refines : (a : ℕ) (f : Phase) → p.phase a ≡ f → Refines (book spec a p f)
  unfolding book
  book-Refines a deliberate e = finish-Refines a deliberate e refl
  book-Refines a (failed stable_for) e =
      let fresh = leb spec.stable_after stable_for in
      moved-Refines a (failed stable_for) _ _ _ (suc p.total_restarts) e refl
        (λ h. pausing-live spec.restart_limit (next_attempts spec stable_for p.attempts) h)
        (λ h. spent spec.restart_limit p.attempts fresh (s.within a (rw e refl)))
  book-Refines a f e = unchanged-Refines

  launch-Refines : (a : ℕ) (runs : Bool) (f : Phase) → p.phase a ≡ f → Refines (launch a runs p f)
  unfolding launch
  launch-Refines a true spawning e = shift-Refines a spawning waiting e refl refl
  launch-Refines a false spawning e = shift-Refines a spawning (failed 0) e refl refl
  launch-Refines a runs f e = unchanged-Refines

  answer-Refines :
      (a now : ℕ) (outcome : ReadyOutcome) (f : Phase)
      → p.phase a ≡ f
      → Refines (answer a now outcome p f)
  unfolding answer
  answer-Refines a now ready_reached waiting e =
      moved-Refines a waiting (serving now) ready p.attempts p.total_restarts e refl (λ h. refl)
        (λ h. inl refl)
  answer-Refines a now ready_never_came waiting e = shift-Refines a waiting (failed 0) e refl refl
  answer-Refines a now ready_stop_requested waiting e =
      if-both Refines (p.closed a) _ p (λ c. shift-Refines a waiting deliberate e refl refl)
        (λ c. unchanged-Refines)
  answer-Refines a now outcome f e = unchanged-Refines

  exit-Refines : (a now : ℕ) (f : Phase) → p.phase a ≡ f → Refines (exit a now p f)
  unfolding exit
  exit-Refines a now (serving since) e =
      shift-Refines a (serving since) (failed (now - since)) e refl refl
  exit-Refines a now f e = unchanged-Refines

  obey-Refines : (a now : ℕ) (f : Phase) → p.phase a ≡ f → Refines (obey a now p f)
  unfolding obey
  obey-Refines a now (serving since) e =
      if-both Refines (p.closed a) _ p (λ c. shift-Refines a (serving since) deliberate e refl refl)
        (λ c. unchanged-Refines)
  obey-Refines a now f e = unchanged-Refines

  resume-Refines : (a : ℕ) (f : Phase) → p.phase a ≡ f → Refines (resume a p f)
  unfolding resume
  resume-Refines a pausing e =
      moved-Refines a pausing spawning starting p.attempts p.total_restarts e refl (λ h. refl)
        (λ h. inl refl)
  resume-Refines a f e = unchanged-Refines

  leave-Refines : (a : ℕ) (f : Phase) → p.phase a ≡ f → Refines (leave a p f)
  unfolding leave
  leave-Refines a pausing e =
      if-both Refines (p.closed a) _ p (λ c. finish-Refines a pausing e refl)
        (λ c. unchanged-Refines)
  leave-Refines a f e = unchanged-Refines

  request_stop-Refines : (found : Bool) → Refines (record (request_stop p) { found_idle = found })
  unfolding request_stop
  request_stop-Refines found =
      if-both (λ q. Refines (record q { found_idle = found })) (no_child p.state) p
        (record p { closed = update p.closed (p.begun - 1) true })
        (λ e. kept-Refines p.inflight p.last_used p.stopping found p.closed)
        (λ e.
          kept-Refines p.inflight p.last_used p.stopping found (update p.closed (p.begun - 1) true))

  requests-Refines : Refines (request_stop p)
  unfolding request_stop
  requests-Refines =
      if-both Refines (no_child p.state) p _ (λ e. unchanged-Refines)
        (λ e.
          kept-Refines p.inflight p.last_used p.stopping p.found_idle
            (update p.closed (p.begun - 1) true))

  pub step-Refines : (e : Event) → Refines (step spec p e)
  unfolding step acquire release look_idle latch stop_idle
  step-Refines ensures = ensure_ready-Refines
  step-Refines acquires = kept-Refines (suc p.inflight) p.last_used p.stopping p.found_idle p.closed
  step-Refines requests = requests-Refines
  step-Refines latches = kept-Refines p.inflight p.last_used true p.found_idle p.closed
  step-Refines gives_up = give_up-Refines
  step-Refines stops_idle =
      if-both Refines p.found_idle _ p (λ f. request_stop-Refines false) (λ f. unchanged-Refines)
  step-Refines (releases now) = kept-Refines (p.inflight - 1) now p.stopping p.found_idle p.closed
  step-Refines (looks_idle now) =
      kept-Refines p.inflight p.last_used p.stopping (look_idle spec now p).found_idle p.closed
  step-Refines (launches a runs) = launch-Refines a runs (p.phase a) refl
  step-Refines (answers a now outcome) = answer-Refines a now outcome (p.phase a) refl
  step-Refines (exits a now) = exit-Refines a now (p.phase a) refl
  step-Refines (obeys a now) = obey-Refines a now (p.phase a) refl
  step-Refines (books a) = book-Refines a (p.phase a) refl
  step-Refines (resumes a) = resume-Refines a (p.phase a) refl
  step-Refines (leaves a) = leave-Refines a (p.phase a) refl

-- The views along a run.
pub data IsPath (limit : ℕ) : List Server → Type 0 where
  alone : {s : Server} → IsPath limit (s ∷ [])
  onward :
      {s t : Server} {ts : List Server}
      → Move limit s t
      → IsPath limit (t ∷ ts)
      → IsPath limit (s ∷ t ∷ ts)

abbrev pub views_of : Spec → Process → List Event → List Server
views_of spec p [] = []
views_of spec p (e ∷ es) = view (step spec p e) ∷ views_of spec (step spec p e) es
