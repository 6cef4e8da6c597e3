-- ===== src/Contract/Plan/Cycle.antt =====
-- pkg/contract/workflow.go: where `LayersAfter` reports a cycle, there is one.
use mathlib.Core.Path.{subst}
use atenea.Prelude.Str.{Str, str_eq_iff}
use atenea.Prelude.{
  ℕ, zero, suc, ◌<◌, ◌≡◌, refl, sym, ap, ◌∙◌, inl, inr, true, false, List, [], ◌∷◌, keep, length,
  In, Bool-cases, &&-eq-true, arith,
}
use atenea.Contract.Implementation.{contains}
use atenea.Contract.Plan.{
  Step, Plan, steps_fit, needs_fit, all_needs_fit, step_ids, ready, mark_all, unfinished, next_wave,
  remaining, Layering, layers, invalid, cycle, no_fuel, with_wave, waves_from, layers_after,
}
use atenea.Contract.Plan.Sort.{In-contains, contains-In, In-keep, keep-In, contains-mark_all}
use atenea.Contract.Plan.Waves.{runs, wave_ids, Tallies, wave-Tallies}
use atenea.Contract.Plan.Layers.{ends, stuck, adds, round, layers_after-Started}

-- A step with the id that is not finished, and that needs one of the ids.
pub record Caught (steps : List Step) (finished ids : List Str) (id : Str) : Type 0 where
  pub step : Step
  pub planned : In step steps
  pub named : step.id ≡ id
  pub open_still : contains id finished ≡ false
  pub need : Str
  pub needed : contains need step.needs ≡ true
  pub need_caught : contains need ids ≡ true

unready :
    (needs done : List Str)
    → ready needs done ≡ false
    → (need : Str) × (contains need needs ≡ true) × (contains need done ≡ false)
unfolding ready
unready [] done h = absurd (cc h)
unready (need ∷ needs) done h = elim (Bool-cases (contains need done)) [
  | inl e ↦ let (n, m, o) = unready needs done (ground (arith, e, h)) in (n, ground (arith, m), o)
  | inr e ↦ (need, ground (arith, str_eq_iff need need), e)
]

needs_fit-known :
    (ids : List Str) (id : Str) (seen needs : List Str) (need : Str)
    → needs_fit ids id seen needs ≡ true
    → contains need needs ≡ true
    → contains need ids ≡ true
unfolding needs_fit
needs_fit-known ids id seen [] need h m = absurd (cc m)
needs_fit-known ids id seen (n ∷ needs) need h m =
    ground (arith, str_eq_iff n need, needs_fit-known ids id (n ∷ seen) needs need)

all_needs_fit-known :
    (ids : List Str) (steps : List Step) (s : Step) (need : Str)
    → all_needs_fit ids steps ≡ true
    → In s steps
    → contains need s.needs ≡ true
    → contains need ids ≡ true
unfolding all_needs_fit
all_needs_fit-known ids [] s need h m n = absurd m
all_needs_fit-known ids (t ∷ steps) s need h (inl e) n =
    needs_fit-known ids t.id [] t.needs need (&&-eq-true _ _ h).0 (rw (← e) n)
all_needs_fit-known ids (t ∷ steps) s need h (inr m) n =
    all_needs_fit-known ids steps s need (&&-eq-true (needs_fit ids t.id [] t.needs) _ h).1 m n

-- Where no wave is left, what remains is caught.
remaining-Caught :
    (steps : List Step) (done : List Str) (id : Str)
    → all_needs_fit (step_ids steps) steps ≡ true
    → next_wave steps done ≡ []
    → contains id (remaining steps done) ≡ true
    → Caught steps done (remaining steps done) id
unfolding next_wave remaining
remaining-Caught steps done id f w h =
    let (s, m, same) = contains-In id (keep (unfinished done) steps) h in
    let (i, u) = keep-In (unfinished done) s steps m in
    let idle : runs done s ≡ false = elim (Bool-cases (runs done s)) [
      | inl r ↦ absurd (subst (In s) w (In-keep (runs done) s steps i r))
      | inr r ↦ r
    ] in
    let (need, n, o) = unready s.needs done (ground (arith, u, idle)) in
    let (t, j, same') =
      contains-In need steps (all_needs_fit-known (step_ids steps) steps s need f i n) in
    record {
      step = s;
      planned = i;
      named = same;
      open_still = rw (← same) (ground (arith, u));
      need = need;
      needed = n;
      need_caught = rw (← same') (
          In-contains t (keep (unfinished done) steps)
            (In-keep (unfinished done) t steps j (rw (same', o) refl)));
    }

-- What is caught in what remains of fewer finished steps.
still-Caught :
    (steps : List Step) (later done ids : List Str) (id : Str)
    → (contains id later ≡ false → contains id done ≡ false)
    → Caught steps later ids id
    → Caught steps done ids id
still-Caught steps later done ids id h c = record {
  step = c.step;
  planned = c.planned;
  named = c.named;
  open_still = h c.open_still;
  need = c.need;
  needed = c.needed;
  need_caught = c.need_caught;
}

abbrev AllCaught : List Step → List Str → List Str → Type 0
AllCaught steps done ids =
    (0 < length ids) × ((id : Str) → contains id ids ≡ true → Caught steps done ids id)

with_wave-cycle :
    (wave : List Step) (l : Layering) (ids : List Str)
    → with_wave wave l ≡ cycle ids
    → l ≡ cycle ids
with_wave-cycle wave (layers later) ids e = absurd (cc e)
with_wave-cycle wave invalid ids e = absurd (cc e)
with_wave-cycle wave (cycle others) ids e = e
with_wave-cycle wave no_fuel ids e = absurd (cc e)

length-step_ids : (l : List Step) → length (step_ids l) ≡ length l
length-step_ids [] = refl
length-step_ids (s ∷ l) = ap suc (length-step_ids l)

waves_from-AllCaught :
    (fuel : ℕ) (steps : List Step) (done ids : List Str)
    → steps_fit [] steps ≡ true
    → all_needs_fit (step_ids steps) steps ≡ true
    → Tallies steps done
    → waves_from fuel steps done ≡ cycle ids
    → AllCaught steps done ids
waves_from-AllCaught zero steps done ids f n t e = absurd (unfold waves_from in cc e)
waves_from-AllCaught (suc fuel) steps done ids f n t e = elim (round fuel steps done) [
  | ends l b x ↦ absurd (cc (x, e))
  | stuck l b w x ↦
      let same : remaining steps done ≡ ids = cc (x, e) in
      let some_left : 0 < length (remaining steps done) =
        unfold remaining in omega (arith, b, t, length-step_ids (keep (unfinished done) steps)) in
      subst (AllCaught steps done) same (some_left, λ id m. remaining-Caught steps done id n w m)
  | adds l s wave b w x ↦
      let x' =
        subst
          (λ v.
            waves_from (suc fuel) steps done
            ≡ with_wave v (waves_from fuel steps (mark_all (step_ids v) done)))
          (sym w) x in
      let (some_left, all) =
        waves_from-AllCaught fuel steps (mark_all (wave_ids steps done) done) ids f n
          (wave-Tallies steps done f t) (with_wave-cycle _ _ ids (sym x' ∙ e)) in
      (
        some_left,
        λ id m.
            still-Caught steps _ done ids id
              (λ o. ground (arith, o, contains-mark_all id (wave_ids steps done) done)) (all id m),
      )
]

-- Where LayersAfter reports a cycle, it names some ids; each is the id of a step of the plan that is
-- not among the finished ones and that needs a step whose id is named too. So no order of the
-- steps that are left lets each run behind what it needs.
pub layers_after-Caught :
    (p : Plan) (finished ids : List Str)
    → layers_after p finished ≡ cycle ids
    → (0 < length ids) × ((id : Str) → contains id ids ≡ true → Caught p.steps finished ids id)
layers_after-Caught p finished ids e = elim (layers_after-Started p finished (cycle ids) e) [
  | inl x ↦ absurd (cc x)
  | inr start ↦
      let (some_left, all) =
        waves_from-AllCaught (suc (length p.steps)) p.steps (mark_all finished []) ids start.fits
          start.needs_known start.tallies start.looped in
      (
        some_left,
        λ id m.
            still-Caught p.steps _ finished ids id
              (λ o. ground (arith, o, contains-mark_all id finished [])) (all id m),
      )
]
