-- ===== src/Orchestrator/Waves.antt =====
-- internal/orchestrator/orchestrator.go: what one wave of a dispatch closes.

use atenea.Prelude.Str.{Str, str_lt}
use atenea.Prelude.{
  ℕ, ◌≡◌, sym, inl, inr, Bool, true, false, List, [], ◌∷◌, ◌++◌, map, none, some, All, In,
  Bool-cases, Option-cases, if-both, arith,
}
use atenea.Contract.Implementation.{contains}
use atenea.Contract.Plan.{Step, ready}
use atenea.Orchestrator.Closing.{StepResult, Surroundings, run_step}
use atenea.Orchestrator.Loop.{
  with_share, run_wave, blocked_by, blocked_result, blocked_steps, runnable, insert_result,
  sort_results, wave_results, Progress, failed_before,
}

-- How a step of a wave is closed, where some steps are known and some of them did not pass.
pub data Judged (env : Surroundings) (i : ℕ) (known failed : List Str) : StepResult → Type 0 where
  halted :
      (s : Step) (culprit phase : Str)
      → In culprit s.needs
      → contains culprit failed ≡ true
      → Judged env i known failed (record (blocked_result s culprit) { phase = phase })
  ran :
      (s : Step) (phase : Str)
      → ((need : Str)
          → In need s.needs
          → (contains need known ≡ true) × (contains need failed ≡ false))
      → Judged env i known failed (record (run_step env i s) { phase = phase })

ready-In :
    (needs known : List Str) (need : Str)
    → ready needs known ≡ true
    → In need needs
    → contains need known ≡ true
unfolding ready
ready-In [] known need h m = absurd m
ready-In (n ∷ needs) known need h (inl e) = rw e (ground arith)
ready-In (n ∷ needs) known need h (inr m) = ready-In needs known need (ground arith) m

blocked_by-some :
    (failed needs : List Str) (culprit : Str)
    → blocked_by failed needs ≡ some culprit
    → In culprit needs × (contains culprit failed ≡ true)
unfolding blocked_by
blocked_by-some failed [] culprit e = absurd (cc e)
blocked_by-some failed (need ∷ needs) culprit e = elim (Bool-cases (contains need failed)) [
  | inl b ↦ let same : need ≡ culprit = ground arith in (inl (sym same), rw (← same) b)
  | inr b ↦ let (m, h) = blocked_by-some failed needs culprit (ground arith) in (inr m, h)
]

blocked_by-none :
    (failed needs : List Str) (need : Str)
    → blocked_by failed needs ≡ none
    → In need needs
    → contains need failed ≡ false
unfolding blocked_by
blocked_by-none failed [] need e m = absurd m
blocked_by-none failed (n ∷ needs) need e (inl same) = rw same (ground arith)
blocked_by-none failed (n ∷ needs) need e (inr m) =
    blocked_by-none failed needs need (ground arith) m

All-append : (P : StepResult → Type 0) (l m : List StepResult) → All P l → All P m → All P (l ++ m)
All-append P [] m a b = b
All-append P (r ∷ l) m a b = (a.0, All-append P l m a.1 b)

insert_result-All :
    (P : StepResult → Type 0) (r : StepResult) (l : List StepResult)
    → P r
    → All P l
    → All P (insert_result r l)
unfolding insert_result
insert_result-All P r [] h a = (h, tt)
insert_result-All P r (q ∷ l) h a =
    if-both (All P) (str_lt q.step.id r.step.id) _ _ (λ e. (a.0, insert_result-All P r l h a.1))
      (λ e. (h, a))

sort_results-All :
    (P : StepResult → Type 0) (l : List StepResult) → All P l → All P (sort_results l)
unfolding sort_results
sort_results-All P [] a = tt
sort_results-All P (r ∷ l) a = insert_result-All P r (sort_results l) a.0 (sort_results-All P l a.1)

module _ (env : Surroundings) (i : ℕ) (known failed : List Str) where
  blocked_steps-Judged :
      (wave : List Step) → All (Judged env i known failed) (blocked_steps failed wave)
  unfolding blocked_steps
  blocked_steps-Judged [] = tt
  blocked_steps-Judged (s ∷ wave) = elim (Option-cases (blocked_by failed s.needs)) [
    | inl e ↦ rw (e, All) (blocked_steps-Judged wave)
    | inr (culprit, e) ↦
        let (m, h) = blocked_by-some failed s.needs culprit e in
        rw (e, All) (halted s culprit [] m h, blocked_steps-Judged wave)
  ]

  run_wave-Judged :
      (wave : List Step)
      → All (λ s. ready s.needs known ≡ true) wave
      → All (Judged env i known failed) (run_wave env i (runnable failed wave))
  unfolding run_wave runnable
  run_wave-Judged [] a = tt
  run_wave-Judged (s ∷ wave) a = elim (Option-cases (blocked_by failed s.needs)) [
    | inl e ↦
        rw (e, All)
          (
            ran (with_share (env.share i) s) [] (λ need m.
                (ready-In s.needs known need a.0 m, blocked_by-none failed s.needs need e m)),
            run_wave-Judged wave a.1,
          )
    | inr (culprit, e) ↦ rw (e, All) (run_wave-Judged wave a.1)
  ]

  pub wave_results-Judged :
      (wave : List Step)
      → All (λ s. ready s.needs known ≡ true) wave
      → All (Judged env i known failed) (wave_results env i failed wave)
  unfolding wave_results
  wave_results-Judged wave a =
      sort_results-All _ _ (All-append _ _ _ (blocked_steps-Judged wave) (run_wave-Judged wave a))

abbrev pub in_phase : Str → StepResult → StepResult
in_phase phase r = record r { phase = phase }

pub record Closes (phase : Str) (p q : Progress) (done : List StepResult) (written : Bool)
    : Type 1 where
  pub now : List StepResult
  pub closed : q.closed ≡ p.closed ++ now
  pub recorded : q.recorded ≡ p.recorded ++ now
  pub failed : q.failed ≡ failed_before p.failed now
  pub part : (P : StepResult → Type 0) → All P (map (in_phase phase) done) → All P now
  pub whole : written ≡ true → now ≡ map (in_phase phase) done
