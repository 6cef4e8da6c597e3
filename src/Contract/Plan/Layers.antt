-- ===== src/Contract/Plan/Layers.antt =====
-- pkg/contract/workflow.go: what `LayersAfter` answers.
use mathlib.Core.Path.{subst}
use atenea.Prelude.Str.{Str}
use atenea.Prelude.{
  ℕ, zero, suc, ◌≤◌, ◌<◌, ◌≡◌, ◌≢◌, ◌⊎◌, ◌-◌, refl, sym, ap, ◌∙◌, inl, inr, true, ◌&&◌, List, [],
  ◌∷◌, keep, length, leb, leb→le, In, Bool-cases, &&-eq-true, if-both, if◌then◌else◌, arith,
}
use atenea.Contract.Plan.{
  Step, Plan, steps_fit, all_needs_fit, index, step_ids, mark, mark_all, unfinished, next_wave,
  insert_step, sort_steps, remaining, all_steps, Layering, layers, invalid, cycle, no_fuel,
  with_wave, waves_from, layers_after,
}
use atenea.Contract.Plan.Sort.{keep-In, sort_steps-In}
use atenea.Contract.Plan.Waves.{runs, Tallies, mark_all-Tallies}

-- The marks only grow, and by one at least where the first id is new.
mark_all-length : (ids done : List Str) → length done ≤ length (mark_all ids done)
unfolding mark_all
mark_all-length [] done = omega arith
mark_all-length (id ∷ ids) done = ground (arith, mark_all-length ids (mark id done))

with_wave-fuel : (wave : List Step) (l : Layering) → l ≢ no_fuel → with_wave wave l ≢ no_fuel
with_wave-fuel wave (layers later) h e = cc
with_wave-fuel wave invalid h e = cc
with_wave-fuel wave (cycle ids) h e = cc
with_wave-fuel wave no_fuel h e = h e

grows :
    (steps : List Step) (done : List Str) (s : Step) (wave : List Step)
    → sort_steps (next_wave steps done) ≡ s ∷ wave
    → length done < length (mark_all (step_ids (s ∷ wave)) done)
unfolding next_wave mark_all
grows steps done s wave e =
    let first : In s (sort_steps (next_wave steps done)) = rw e (inl refl) in
    let (m, r) = keep-In (runs done) s steps (sort_steps-In s (next_wave steps done) first) in
    ground (arith, r, mark_all-length (step_ids wave) (s.id ∷ done))

List-cases {ℓ} : {A : Type ℓ} (l : List A) → (l ≡ []) ⊎ ((a : A) × (r : List A) × (l ≡ a ∷ r))
List-cases [] = inl refl
List-cases (a ∷ r) = inr (a, r, refl)

-- What one round does: it ends, or finds a cycle, or adds a wave.
pub data Round (fuel : ℕ) (steps : List Step) (done : List Str) : Layering → Type 0 where
  ends : (l : Layering) → length steps ≤ length done → l ≡ layers [] → Round fuel steps done l
  stuck :
      (l : Layering)
      → length done < length steps
      → next_wave steps done ≡ []
      → l ≡ cycle (remaining steps done)
      → Round fuel steps done l
  adds :
      (l : Layering) (s : Step) (wave : List Step)
      → length done < length steps
      → sort_steps (next_wave steps done) ≡ s ∷ wave
      → l ≡ with_wave (s ∷ wave) (waves_from fuel steps (mark_all (step_ids (s ∷ wave)) done))
      → Round fuel steps done l

no_insert : (s : Step) (l : List Step) → insert_step s l ≢ []
unfolding insert_step
no_insert s [] e = cc
no_insert s (t ∷ l) e = ground (arith)

sort_steps-nil : (l : List Step) → sort_steps l ≡ [] → l ≡ []
unfolding sort_steps
sort_steps-nil [] e = refl
sort_steps-nil (s ∷ l) e = absurd (no_insert s (sort_steps l) e)

pub round :
    (fuel : ℕ) (steps : List Step) (done : List Str)
    → Round fuel steps done (waves_from (suc fuel) steps done)
unfolding waves_from
round fuel steps done = elim (Bool-cases (leb (length steps) (length done))) [
  | inl e ↦ ends _ (leb→le _ _ e) (rw e refl)
  | inr e ↦ elim (List-cases (sort_steps (next_wave steps done))) [
    | inl w ↦ stuck _ (ground (arith, e)) (sort_steps-nil _ w) (rw (e, w) refl)
    | inr (s, wave, w) ↦ adds _ s wave (ground (arith, e)) w (rw (e, w) refl)
  ]
]

waves_from-fuel :
    (fuel : ℕ) (steps : List Step) (done : List Str)
    → length steps - length done < fuel
    → waves_from fuel steps done ≢ no_fuel
waves_from-fuel zero steps done h e = absurd (omega arith)
waves_from-fuel (suc fuel) steps done h e = elim (round fuel steps done) [
  | ends l b x ↦ cc (x, e)
  | stuck l b w x ↦ cc (x, e)
  | adds l s wave b w x ↦
      with_wave-fuel (s ∷ wave) _
        (waves_from-fuel fuel steps (mark_all (step_ids (s ∷ wave)) done)
          (omega (arith, grows steps done s wave w)))
        (sym x ∙ e)
]

-- For every plan and every list of finished steps, the loop of LayersAfter ends, within one round
-- more than the plan has steps.
pub layers_after-ends : (p : Plan) (finished : List Str) → layers_after p finished ≢ no_fuel
unfolding layers_after
layers_after-ends p finished =
    if-both (λ l. l ≢ no_fuel) (index p && all_steps (step_ids p.steps) finished) _ _
      (λ e. waves_from-fuel (suc (length p.steps)) p.steps (mark_all finished []) (omega arith))
      (λ e. λ x. cc x)

none_done : (steps : List Step) → length (keep (unfinished []) steps) ≡ length steps
none_done [] = refl
none_done (s ∷ steps) = ap suc (none_done steps)

-- What stands at the start of the loop, where the plan and the report are valid.
pub record Started (p : Plan) (finished : List Str) (l : Layering) : Type 0 where
  pub fits : steps_fit [] p.steps ≡ true
  pub needs_known : all_needs_fit (step_ids p.steps) p.steps ≡ true
  pub tallies : Tallies p.steps (mark_all finished [])
  pub looped : waves_from (suc (length p.steps)) p.steps (mark_all finished []) ≡ l

pub layers_after-Started :
    (p : Plan) (finished : List Str) (l : Layering)
    → layers_after p finished ≡ l
    → (l ≡ invalid) ⊎ Started p finished l
unfolding layers_after index
layers_after-Started p finished l e =
    let before : Tallies p.steps [] = omega (arith, none_done p.steps) in
    elim (Bool-cases (index p && all_steps (step_ids p.steps) finished)) [
      | inl v ↦
          let (valid, reported) = &&-eq-true (index p) _ v in
          let (a, valid') = &&-eq-true _ _ valid in
          let (b, valid'') = &&-eq-true _ _ valid' in
          let (c, d) = &&-eq-true (steps_fit [] p.steps) _ valid'' in
          inr (record {
            fits = c;
            needs_known = d;
            tallies = mark_all-Tallies p.steps finished [] c reported before;
            looped =
                subst
                  (λ b.
                    (if b
                      then waves_from (suc (length p.steps)) p.steps (mark_all finished [])
                      else invalid)
                    ≡ l)
                  v e;
          })
      | inr v ↦ inl (sym e ∙ rw v refl)
    ]
