-- ===== src/Contract/Plan/Waves.antt =====
-- pkg/contract/workflow.go: what one round of the loop of `LayersAfter` leaves to do.
use mathlib.Core.List.{Perm, perm_middle}
use mathlib.Core.List.Perm
use mathlib.Core.Path.{subst}
use atenea.Prelude.Str.{Str, str_eq, str_eq_iff, str_eq_refl}
use atenea.Prelude.{
  suc, ◌+◌, ◌≡◌, refl, sym, ◌∙◌, inl, inr, Bool, true, false, not, ◌&&◌, ◌||◌, List, [], ◌∷◌, ◌++◌,
  keep, length, In, Bool-cases, &&-eq-true, arith,
}
use atenea.Contract.Implementation.{contains}
use atenea.Contract.Plan.{
  Step, validate_step, steps_fit, step_ids, ready, mark, mark_all, unfinished, next_wave,
  sort_steps, all_steps,
}
use atenea.Contract.Plan.Sort.{
  In-contains, contains-In, In-keep, keep-In, sort_steps-In, contains-sort_steps, contains-mark_all,
}

-- No two steps share an id.
abbrev pub Unique : List Step → Type 0
Unique l = (s t : Step) → In s l → In t l → s.id ≡ t.id → s ≡ t

steps_fit-parts :
    (seen : List Str) (s : Step) (l : List Step)
    → steps_fit seen (s ∷ l) ≡ true
    → (contains s.id seen ≡ false) × (steps_fit (s.id ∷ seen) l ≡ true)
unfolding steps_fit
steps_fit-parts seen s l h =
    let (valid, rest) = &&-eq-true (validate_step s) _ h in
    let (new, later) = &&-eq-true (not (contains s.id seen)) _ rest in (ground (arith, new), later)

steps_fit-new :
    (seen : List Str) (l : List Step) (s : Step)
    → steps_fit seen l ≡ true
    → In s l
    → contains s.id seen ≡ false
steps_fit-new seen [] s h m = absurd m
steps_fit-new seen (t ∷ l) s h (inl e) = rw e (steps_fit-parts seen t l h).0
steps_fit-new seen (t ∷ l) s h (inr m) =
    ground (arith, steps_fit-new (t.id ∷ seen) l s (steps_fit-parts seen t l h).1 m)

first_id :
    (seen : List Str) (t : Step) (l : List Step) (s : Step)
    → steps_fit seen (t ∷ l) ≡ true
    → In s l
    → str_eq t.id s.id ≡ false
first_id seen t l s h m =
    ground (arith, steps_fit-new (t.id ∷ seen) l s (steps_fit-parts seen t l h).1 m)

pub steps_fit-Unique : (seen : List Str) (l : List Step) → steps_fit seen l ≡ true → Unique l
steps_fit-Unique seen [] h s t m n e = absurd m
steps_fit-Unique seen (u ∷ l) h s t (inl p) (inl q) e = p ∙ sym q
steps_fit-Unique seen (u ∷ l) h s t (inl p) (inr n) e =
    absurd (cc (first_id seen u l t h n, p, e, str_eq_refl t.id))
steps_fit-Unique seen (u ∷ l) h s t (inr m) (inl q) e =
    absurd (cc (first_id seen u l s h m, q, e, str_eq_refl s.id))
steps_fit-Unique seen (u ∷ l) h s t (inr m) (inr n) e =
    steps_fit-Unique (u.id ∷ seen) l (steps_fit-parts seen u l h).1 s t m n e

abbrev pub wave_ids : List Step → List Str → List Str
wave_ids steps done = step_ids (sort_steps (next_wave steps done))

abbrev pub runs : List Str → Step → Bool
runs done s = unfinished done s && ready s.needs done

-- Of the steps, those in the wave are the unfinished ones that are ready.
wave-contains :
    (steps : List Step) (done : List Str) (s : Step)
    → Unique steps
    → In s steps
    → contains s.id (step_ids (next_wave steps done)) ≡ runs done s
unfolding next_wave
wave-contains steps done s u m = elim (Bool-cases (runs done s)) [
  | inl e ↦ In-contains s (next_wave steps done) (In-keep (runs done) s steps m e) ∙ sym e
  | inr e ↦ elim (Bool-cases (contains s.id (step_ids (next_wave steps done)))) [
    | inl f ↦
        let (t, n, same) = contains-In s.id (next_wave steps done) f in
        let (i, r) = keep-In (runs done) t steps n in
        f ∙ sym (subst (λ x. runs done x ≡ true) (u t s i m same) r)
    | inr f ↦ f ∙ sym e
  ]
]

-- A step is done behind the round if it was before, or was ready.
pub marked :
    (steps : List Step) (done : List Str) (s : Step)
    → Unique steps
    → In s steps
    → contains s.id (mark_all (wave_ids steps done) done)
      ≡ (contains s.id done || ready s.needs done)
marked steps done s u m = ground (
  arith,
  contains-mark_all s.id (wave_ids steps done) done,
  contains-sort_steps s.id (next_wave steps done),
  wave-contains steps done s u m,
)

-- What was to do is the wave, and what is still to do.
pub keep-perm :
    (done later : List Str) (l : List Step)
    → ((s : Step) → In s l → contains s.id later ≡ (contains s.id done || ready s.needs done))
    → Perm (keep (unfinished done) l) (keep (runs done) l ++ keep (unfinished later) l)
keep-perm done later [] h = Perm.refl []
keep-perm done later (s ∷ l) h =
    let ih = keep-perm done later l (λ t m. h t (inr m)) in
    elim (Bool-cases (contains s.id done)) [
      | inl d ↦ rw (h s (inl refl), d) ih
      | inr d ↦ elim (Bool-cases (ready s.needs done)) [
        | inl r ↦ rw (h s (inl refl), d, r) (Perm.cons s ih)
        | inr r ↦
            rw (h s (inl refl), d, r) (Perm.trans (Perm.cons s ih) (Perm.symm (perm_middle _ _)))
      ]
    ]

-- The ids that are done, and the steps to do, are as many as the steps.
abbrev pub Tallies : List Step → List Str → Type 0
Tallies steps done = length done + length (keep (unfinished done) steps) ≡ length steps

keep_other :
    (id : Str) (done : List Str) (l : List Step)
    → ((s : Step) → In s l → str_eq id s.id ≡ false)
    → keep (unfinished (id ∷ done)) l ≡ keep (unfinished done) l
keep_other id done [] h = refl
keep_other id done (s ∷ l) h =
    ground (arith, h s (inl refl), keep_other id done l (λ t m. h t (inr m)))

keep-mark :
    (seen : List Str) (id : Str) (done : List Str) (l : List Step)
    → steps_fit seen l ≡ true
    → contains id (step_ids l) ≡ true
    → contains id done ≡ false
    → suc (length (keep (unfinished (id ∷ done)) l)) ≡ length (keep (unfinished done) l)
keep-mark seen id done [] f h d = absurd (cc)
keep-mark seen id done (s ∷ l) f h d = elim (Bool-cases (str_eq s.id id)) [
  | inl e ↦
      let same = (str_eq_iff s.id id).0 e in
      ground (
        arith,
        same,
        d,
        str_eq_refl id,
        keep_other id done l (λ t m. rw (← same) (first_id seen s l t f m)),
      )
  | inr e ↦ ground (
    arith,
    e,
    d,
    str_eq_iff s.id id,
    str_eq_iff id s.id,
    keep-mark (s.id ∷ seen) id done l (steps_fit-parts seen s l f).1,
  )
]

mark-Tallies :
    (steps : List Step) (id : Str) (done : List Str)
    → steps_fit [] steps ≡ true
    → contains id (step_ids steps) ≡ true
    → Tallies steps done
    → Tallies steps (mark id done)
mark-Tallies steps id done f h t = elim (Bool-cases (contains id done)) [
  | inl e ↦ rw e t
  | inr e ↦ rw e (omega (arith, keep-mark [] id done steps f h e))
]

pub mark_all-Tallies :
    (steps : List Step) (ids done : List Str)
    → steps_fit [] steps ≡ true
    → all_steps (step_ids steps) ids ≡ true
    → Tallies steps done
    → Tallies steps (mark_all ids done)
unfolding mark_all
mark_all-Tallies steps [] done f h t = t
mark_all-Tallies steps (id ∷ ids) done f h t =
    let (known, rest) = &&-eq-true _ _ h in
    mark_all-Tallies steps ids (mark id done) f rest (mark-Tallies steps id done f known t)

-- The steps of a wave are unfinished and ready.
pub wave-runs :
    (steps : List Step) (done : List Str) (s : Step)
    → In s (sort_steps (next_wave steps done))
    → In s steps × (runs done s ≡ true)
unfolding next_wave
wave-runs steps done s m = keep-In (runs done) s steps (sort_steps-In s (next_wave steps done) m)

steps-all_steps :
    (steps wave : List Step)
    → ((s : Step) → In s wave → In s steps)
    → all_steps (step_ids steps) (step_ids wave) ≡ true
steps-all_steps steps [] h = refl
steps-all_steps steps (s ∷ wave) h =
    ground
      (arith, In-contains s steps (h s (inl refl)), steps-all_steps steps wave (λ t m. h t (inr m)))

pub wave-Tallies :
    (steps : List Step) (done : List Str)
    → steps_fit [] steps ≡ true
    → Tallies steps done
    → Tallies steps (mark_all (wave_ids steps done) done)
wave-Tallies steps done f t =
    mark_all-Tallies steps (wave_ids steps done) done f
      (steps-all_steps steps (sort_steps (next_wave steps done))
        (λ s m. (wave-runs steps done s m).0))
      t
