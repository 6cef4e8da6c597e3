-- ===== src/Orchestrator/Ids.antt =====
-- internal/orchestrator/orchestrator.go: which steps, and which ids, a wave of a dispatch closes.
use mathlib.Core.List.{Perm}
use mathlib.Core.List.Perm
use mathlib.Core.Path.{subst}
use atenea.Prelude.Float.{float_zero}
use atenea.Prelude.Str.{Str, str_lt, str_eq}
use atenea.Prelude.{
  map, ℕ, ◌≡◌, refl, sym, ap, ◌∙◌, inl, inr, ◌||◌, List, [], ◌∷◌, ◌++◌, Option, none, some,
  Option-cases, if-both, arith,
}
use atenea.Contract.Implementation.{contains}
use atenea.Contract.Plan.{Step, step_ids}
use atenea.Orchestrator.Closing.{StepResult, Surroundings, run_step}
use atenea.Orchestrator.Loop.{
  with_share, run_wave, blocked_by, blocked_result, blocked_steps, runnable, insert_result,
  sort_results, wave_results, ids_of,
}

-- A step but for the share that a wave cuts for it.
abbrev pub without_share : Step → Step
without_share s = with_share float_zero s

abbrev pub plain : List Step → List Step
plain = map without_share

abbrev pub steps_of : List StepResult → List Step
steps_of = map (λ r. without_share r.step)

insert_result-perm :
    (r : StepResult) (l : List StepResult)
    → Perm (steps_of (insert_result r l)) (without_share r.step ∷ steps_of l)
unfolding insert_result
insert_result-perm r [] = Perm.refl _
insert_result-perm r (q ∷ l) =
    if-both (λ x. Perm (steps_of x) (without_share r.step ∷ without_share q.step ∷ steps_of l))
      (str_lt q.step.id r.step.id) _ _
      (λ e.
        Perm.trans (Perm.cons (without_share q.step) (insert_result-perm r l))
          (Perm.swap (without_share r.step) (without_share q.step) _))
      (λ e. Perm.refl _)

sort_results-perm : (l : List StepResult) → Perm (steps_of (sort_results l)) (steps_of l)
unfolding sort_results
sort_results-perm [] = Perm.refl []
sort_results-perm (r ∷ l) =
    Perm.trans (insert_result-perm r (sort_results l))
      (Perm.cons (without_share r.step) (sort_results-perm l))

steps_of-middle :
    (a : List StepResult) (r : StepResult) (b : List StepResult)
    → Perm (steps_of (a ++ r ∷ b)) (without_share r.step ∷ steps_of (a ++ b))
steps_of-middle [] r b = Perm.refl _
steps_of-middle (q ∷ a) r b =
    Perm.trans (Perm.cons (without_share q.step) (steps_of-middle a r b))
      (Perm.swap (without_share r.step) (without_share q.step) _)

split-perm :
    (env : Surroundings) (i : ℕ) (failed : List Str) (wave : List Step)
    → Perm
        (steps_of (blocked_steps failed wave ++ run_wave env i (runnable failed wave)))
        (plain wave)
unfolding blocked_steps run_wave runnable run_step
split-perm env i failed [] = Perm.refl []
split-perm env i failed (s ∷ wave) =
    let later = blocked_steps failed wave in
    let rest = runnable failed wave in
    let Goal : Option Str → Type 0 = λ o.
      Perm
        (steps_of (
          elim o [ none ↦ later | some culprit ↦ blocked_result s culprit ∷ later ]
          ++ run_wave env i (elim o [ none ↦ s ∷ rest | some culprit ↦ rest ])))
        (without_share s ∷ plain wave) in
    elim (Option-cases (blocked_by failed s.needs)) [
      | inl e ↦ subst Goal (sym e) (
          Perm.trans
            (steps_of-middle later (run_step env i (with_share (env.share i) s))
              (run_wave env i rest))
            (Perm.cons (without_share s) (split-perm env i failed wave)))
      | inr (culprit, e) ↦
          subst Goal (sym e) (Perm.cons (without_share s) (split-perm env i failed wave))
    ]

-- A wave closes each of its steps once.
pub wave_results-perm :
    (env : Surroundings) (i : ℕ) (failed : List Str) (wave : List Step)
    → Perm (steps_of (wave_results env i failed wave)) (plain wave)
unfolding wave_results
wave_results-perm env i failed wave =
    Perm.trans (sort_results-perm _) (split-perm env i failed wave)

contains-insert_result :
    (k : Str) (r : StepResult) (l : List StepResult)
    → contains k (ids_of (insert_result r l)) ≡ contains k (r.step.id ∷ ids_of l)
unfolding insert_result
contains-insert_result k r [] = refl
contains-insert_result k r (q ∷ l) = ground (arith, contains-insert_result k r l)

contains-sort_results :
    (k : Str) (l : List StepResult) → contains k (ids_of (sort_results l)) ≡ contains k (ids_of l)
unfolding sort_results
contains-sort_results k [] = refl
contains-sort_results k (r ∷ l) =
    ground (arith, contains-insert_result k r (sort_results l), contains-sort_results k l)

contains-middle :
    (k : Str) (a : List StepResult) (r : StepResult) (b : List StepResult)
    → contains k (ids_of (a ++ r ∷ b)) ≡ contains k (r.step.id ∷ ids_of (a ++ b))
contains-middle k [] r b = refl
contains-middle k (q ∷ a) r b = ground (arith, contains-middle k a r b)

contains-split :
    (env : Surroundings) (i : ℕ) (k : Str) (failed : List Str) (wave : List Step)
    → contains k (ids_of (blocked_steps failed wave ++ run_wave env i (runnable failed wave)))
      ≡ contains k (step_ids wave)
unfolding blocked_steps run_wave runnable run_step
contains-split env i k failed [] = refl
contains-split env i k failed (s ∷ wave) =
    let later = blocked_steps failed wave in
    let rest = runnable failed wave in
    let ih = contains-split env i k failed wave in
    let Goal : Option Str → Type 0 = λ o.
      contains k (
        ids_of (
          elim o [ none ↦ later | some culprit ↦ blocked_result s culprit ∷ later ]
          ++ run_wave env i (elim o [ none ↦ s ∷ rest | some culprit ↦ rest ])))
      ≡ contains k (s.id ∷ step_ids wave) in
    elim (Option-cases (blocked_by failed s.needs)) [
      | inl e ↦ subst Goal (sym e) (
          contains-middle k later (run_step env i (with_share (env.share i) s))
            (run_wave env i rest)
          ∙ ap (λ b. str_eq s.id k || b) ih)
      | inr (culprit, e) ↦ subst Goal (sym e) (ap (λ b. str_eq s.id k || b) ih)
    ]

-- The ids that a wave closes are its own.
pub contains-wave_results :
    (env : Surroundings) (i : ℕ) (k : Str) (failed : List Str) (wave : List Step)
    → contains k (ids_of (wave_results env i failed wave)) ≡ contains k (step_ids wave)
unfolding wave_results
contains-wave_results env i k failed wave =
    contains-sort_results k _ ∙ contains-split env i k failed wave

-- How the inner loop closes what a wave leaves: all of it, or the first ones.
