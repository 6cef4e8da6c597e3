-- ===== src/Contract/Plan/Schedule.antt =====
-- pkg/contract/workflow.go: the waves that `LayersAfter` answers are a schedule.
use mathlib.Core.List.{Perm}
use mathlib.Core.List.Perm
use mathlib.Core.Path.{subst, fun_ext}
use atenea.Prelude.Str.{Str}
use atenea.Prelude.{
  ℕ, zero, suc, ◌≡◌, refl, sym, ap, ◌∙◌, inl, inr, Bool, true, false, not, ◌||◌, List, [], ◌∷◌,
  ◌++◌, keep, length, All, In, arith,
}
use atenea.Contract.Implementation.{contains}
use atenea.Contract.Plan.{
  Step, Plan, steps_fit, step_ids, ready, mark_all, unfinished, next_wave, sort_steps, Layering,
  layers, invalid, cycle, no_fuel, with_wave, waves_from, layers_after,
}
use atenea.Contract.Plan.Sort.{sort_steps-perm, contains-mark_all}
use atenea.Contract.Plan.Waves.{
  Unique, steps_fit-Unique, wave_ids, marked, keep-perm, Tallies, wave-runs, wave-Tallies,
}
use atenea.Contract.Plan.Layers.{ends, stuck, adds, round, layers_after-Started}

-- The steps of all waves, in order.
abbrev pub all_of : List (List Step) → List Step
all_of [] = []
all_of (wave ∷ waves) = wave ++ all_of waves

-- Each step runs in the first wave before which all that it needs is finished.
abbrev pub Scheduled : List Str → List (List Step) → Type 0
Scheduled before [] = Unit
Scheduled before (wave ∷ waves) =
    All (λ s. ready s.needs before ≡ true) wave
    × All (λ s. ready s.needs before ≡ false) (all_of waves)
    × Scheduled (step_ids wave ++ before) waves

In-All : (P : Step → Type 0) (l : List Step) → ((s : Step) → In s l → P s) → All P l
In-All P [] h = tt
In-All P (s ∷ l) h = (h s (inl refl), In-All P l (λ t m. h t (inr m)))

All-append : (P : Step → Type 0) (l m : List Step) → All P l → All P m → All P (l ++ m)
All-append P [] m a b = b
All-append P (s ∷ l) m a b = (a.0, All-append P l m a.1 b)

pub All-map : (P Q : Step → Type 0) (l : List Step) → ((s : Step) → P s → Q s) → All P l → All Q l
All-map P Q [] f a = tt
All-map P Q (s ∷ l) f a = (f s a.0, All-map P Q l f a.1)

-- Two lists that hold the same ids.
abbrev pub Same : List Str → List Str → Type 0
Same a b = (k : Str) → contains k a ≡ contains k b

pub ready-Same : (needs a b : List Str) → Same a b → ready needs a ≡ ready needs b
unfolding ready
ready-Same [] a b h = refl
ready-Same (need ∷ needs) a b h = ground (arith, h need, ready-Same needs a b h)

pub contains-append :
    (k : Str) (a b : List Str) → contains k (a ++ b) ≡ (contains k a || contains k b)
contains-append k [] b = refl
contains-append k (x ∷ a) b = ground (arith, contains-append k a b)

mark_all-Same :
    (ids done before : List Str) → Same done before → Same (mark_all ids done) (ids ++ before)
mark_all-Same ids done before h k =
    ground (arith, contains-mark_all k ids done, contains-append k ids before, h k)

length_zero : (l : List Step) → length l ≡ 0 → l ≡ []
length_zero [] h = refl
length_zero (s ∷ l) h = absurd (omega arith)

with_wave-layers :
    (wave : List Step) (l : Layering) (ws : List (List Step))
    → with_wave wave l ≡ layers ws
    → (later : List (List Step)) × (l ≡ layers later) × (ws ≡ wave ∷ later)
with_wave-layers wave (layers later) ws e = (later, refl, cc e)
with_wave-layers wave invalid ws e = absurd (cc e)
with_wave-layers wave (cycle ids) ws e = absurd (cc e)
with_wave-layers wave no_fuel ws e = absurd (cc e)

abbrev ToDo : List Step → List Str → Step → Type 0
ToDo steps done s = In s steps × (contains s.id done ≡ false)

-- A step to do behind a round was to do before, and was not ready.
later-ToDo :
    (steps : List Step) (done : List Str) (s : Step)
    → Unique steps
    → ToDo steps (mark_all (wave_ids steps done) done) s
    → ToDo steps done s × (ready s.needs done ≡ false)
later-ToDo steps done s u (m, h) =
    ((m, ground (arith, h, marked steps done s u m)), ground (arith, h, marked steps done s u m))

abbrev Answer : List Step → List Str → List Str → List (List Step) → Type 0
Answer steps done before ws =
    Perm (all_of ws) (keep (unfinished done) steps)
    × Scheduled before ws
    × All (ToDo steps done) (all_of ws)

-- A wave before what the later rounds answer.
wave-Answer :
    (steps : List Step) (done before : List Str) (later : List (List Step))
    → Unique steps
    → Same done before
    → Answer steps (mark_all (wave_ids steps done) done) (wave_ids steps done ++ before) later
    → Answer steps done before (sort_steps (next_wave steps done) ∷ later)
unfolding next_wave
wave-Answer steps done before later u h (perm, sched, todo) =
    let wave = sort_steps (next_wave steps done) in
    let after = mark_all (wave_ids steps done) done in
    (
      Perm.trans (Perm.append (sort_steps-perm (next_wave steps done)) perm)
          (Perm.symm (keep-perm done after steps (λ s m. marked steps done s u m))),
      (
        In-All _ wave
            (λ s m. ground (arith, (wave-runs steps done s m).1, ready-Same s.needs done before h)),
        All-map _ _ (all_of later)
            (λ s t. sym (ready-Same s.needs done before h) ∙ (later-ToDo steps done s u t).1) todo,
        sched,
      ),
      All-append _ wave (all_of later)
          (In-All _ wave (λ s m. let (i, r) = wave-runs steps done s m in (i, ground (arith, r))))
          (All-map _ _ (all_of later) (λ s t. (later-ToDo steps done s u t).0) todo),
    )

waves_from-Answer :
    (fuel : ℕ) (steps : List Step) (done before : List Str) (ws : List (List Step))
    → steps_fit [] steps ≡ true
    → Same done before
    → Tallies steps done
    → waves_from fuel steps done ≡ layers ws
    → Answer steps done before ws
waves_from-Answer zero steps done before ws f h t e = absurd (unfold waves_from in cc e)
waves_from-Answer (suc fuel) steps done before ws f h t e = elim (round fuel steps done) [
  | ends l b x ↦
      let last : [] ≡ ws = cc (x, e) in
      subst (Answer steps done before) last (
        rw (length_zero (keep (unfinished done) steps) (omega (arith, t, b)))
          (Perm.refl [], tt, tt))
  | stuck l b w x ↦ absurd (cc (x, e))
  | adds l s wave b w x ↦
      let ids = wave_ids steps done in
      let x' =
        subst
          (λ v.
            waves_from (suc fuel) steps done
            ≡ with_wave v (waves_from fuel steps (mark_all (step_ids v) done)))
          (sym w) x in
      let (later, l', w') = with_wave-layers _ _ ws (sym x' ∙ e) in
      subst (Answer steps done before) (sym w') (
        wave-Answer steps done before later (steps_fit-Unique [] steps f) h (
          waves_from-Answer fuel steps (mark_all ids done) (ids ++ before) later f
            (mark_all-Same ids done before h) (wave-Tallies steps done f t) l'))
]

or_false : (b : Bool) → (b || false) ≡ b
or_false true = refl
or_false false = refl

-- Where LayersAfter answers waves: together they hold the steps that are not finished, each as
-- often as the plan does; and each step stands in the first wave before which all that it needs is
-- finished, by the list of finished steps or by an earlier wave.
pub layers_after-Scheduled :
    (p : Plan) (finished : List Str) (ws : List (List Step))
    → layers_after p finished ≡ layers ws
    → Perm (all_of ws) (keep (unfinished finished) p.steps) × Scheduled finished ws
layers_after-Scheduled p finished ws e = elim (layers_after-Started p finished (layers ws) e) [
  | inl x ↦ absurd (cc x)
  | inr start ↦
      let same : Same (mark_all finished []) finished =
        λ k. contains-mark_all k finished [] ∙ or_false (contains k finished) in
      let (perm, sched, todo) =
        waves_from-Answer (suc (length p.steps)) p.steps (mark_all finished []) finished ws
          start.fits same start.tallies start.looped in
      (
        subst (λ u. Perm (all_of ws) (keep u p.steps)) (fun_ext (λ s. ap not (same s.id))) perm,
        sched,
      )
]
