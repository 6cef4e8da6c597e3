-- ===== src/Tests/Processes.antt =====
-- internal/supervisor/process.go: a server that fails once, and is stopped by a shutdown.
use atenea.Prelude.{◌≡◌, refl, true, false, List, [], ◌∷◌}
use atenea.Supervisor.Process.{
  Spec, ready, Process, new_process, Event, ensures, requests, latches, launches, answers, exits,
  obeys, books, resumes, ready_reached, step, run, begin_locked, ensure_ready, launch, answer, exit,
  book, resume,
}
use atenea.Supervisor.Process.Single.{IsContained, run-IsContained}
use atenea.Supervisor.Process.Latch.{Latched, run-Latched}
use atenea.Supervisor.Process.Budget.{up, exhausted, views_of}

abbrev two_restarts : Spec
two_restarts = record { restart_limit = 2; stable_after = 100; idle_timeout = 600 }

-- The child serves from 5 to 9, fails, and serves again from 20.
abbrev a_failure : List Event
a_failure =
    ensures
    ∷ launches 0 true
    ∷ answers 0 5 ready_reached
    ∷ exits 0 9
    ∷ books 0
    ∷ resumes 0
    ∷ launches 0 true
    ∷ answers 0 20 ready_reached
    ∷ []

abbrev a_shutdown : List Event
a_shutdown = latches ∷ requests ∷ obeys 0 25 ∷ books 0 ∷ ensures ∷ []

abbrev failed_once : Process
failed_once = run two_restarts (new_process 0) a_failure

failed_once_ready : failed_once.state ≡ ready
unfolding step ensure_ready begin_locked launch answer exit book resume
failed_once_ready = refl

failed_once_counts : failed_once.attempts ≡ 1
unfolding step ensure_ready begin_locked launch answer exit book resume
failed_once_counts = refl

-- No restart is allowed: the first failure exhausts the budget.
abbrev no_restarts : Spec
no_restarts = record { restart_limit = 0; stable_after = 100; idle_timeout = 600 }

views_exhausted :
    views_of no_restarts (new_process 0) (ensures ∷ launches 0 false ∷ books 0 ∷ ensures ∷ [])
    ≡ up 0 ∷ up 0 ∷ exhausted ∷ exhausted ∷ []
unfolding step ensure_ready begin_locked launch book
views_exhausted = refl

run-IsContained_example : IsContained two_restarts (run two_restarts (new_process 0) a_failure)
run-IsContained_example = run-IsContained two_restarts 0 a_failure

run-Latched_example :
    Latched
      (record failed_once { stopping = true })
      (run two_restarts (record failed_once { stopping = true }) a_shutdown)
run-Latched_example =
    run-Latched two_restarts (record failed_once { stopping = true }) a_shutdown refl
