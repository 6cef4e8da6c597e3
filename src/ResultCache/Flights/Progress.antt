-- ===== src/ResultCache/Flights/Progress.antt =====
-- internal/resultcache/cache.go: what the calls of one key get, and that none waits for ever.
use atenea.Prelude.Str.{Str}
use atenea.Prelude.{
  ℕ, ◌≡◌, ◌⊎◌, inl, inr, sym, ap, ◌∙◌, Bool, true, List, [], ◌∷◌, Option, none, some, arith,
}
use atenea.ResultCache.{Cache}
use atenea.ResultCache.Flights.{
  Phase, leading, loaded, kept, waiting, World, load, keep, land, wake, step, run, Event, loads,
  keeps, lands, wakes,
}
use atenea.ResultCache.Flights.Invariant.{IsValid, flying, answered, awaited, started}
use atenea.ResultCache.Flights.Steps.{run-IsValid, started-IsValid}

module _ (key : ℕ → Str) (cacheable : ℕ → List ℕ → Bool) (c : Cache) (es : List Event) where
  -- The world behind any events from a new start.
  abbrev pub behind : World
  behind = run key cacheable (started c) es

  valid : IsValid key behind
  valid = run-IsValid key cacheable (started c) es (started-IsValid key c)

  -- In any interleaving of calls: two calls of one key are never at the provider, or on their way
  -- to land, at once; and all calls that return the answer of one flight, its leader and those who
  -- joined it, return the same value and the same error.
  pub flights_lem :
      ((i j f g : ℕ)
        → flying (behind.phase i) ≡ some f
        → flying (behind.phase j) ≡ some g
        → key i ≡ key j
        → i ≡ j)
      × ((i j f : ℕ) (v u : List ℕ) (d e : Option Str)
          → answered (behind.phase i) ≡ some (f, v, d)
          → answered (behind.phase j) ≡ some (f, u, e)
          → (v ≡ u) × (d ≡ e))
  flights_lem = (
    λ i j f g hi hj same.
        let e : f ≡ g = ground (arith, valid.airborne i f, valid.airborne j g) in
        valid.alone i j f hi (hj ∙ ap some (sym e)),
    λ i j f v u d e hi hj. ground (arith, valid.truthful i f v d, valid.truthful j f u e),
  )

module _ (key : ℕ → Str) (cacheable : ℕ → List ℕ → Bool) (w : World) (i j f : ℕ)
    (waits : w.phase i ≡ waiting f) where
  -- The last parts of the leader `j`, and the wake of `i`.
  land_wake :
      (v : List ℕ) (e : Option Str)
      → w.phase j ≡ kept f v e
      → answered ((run key cacheable w (lands j ∷ wakes i ∷ [])).phase i) ≡ some (f, v, e)
  unfolding step land wake
  land_wake v e leads = rw leads (ground arith)

  keep_phases :
      (now : ℕ) (v : List ℕ) (e : Option Str)
      → w.phase j ≡ loaded f v e
      → ((step key cacheable w (keeps j now)).phase j ≡ kept f v e)
        × ((step key cacheable w (keeps j now)).phase i ≡ waiting f)
  unfolding step keep
  keep_phases now v e leads = rw leads (ground arith)

  load_phases :
      (v : List ℕ) (e : Option Str)
      → w.phase j ≡ leading f
      → ((step key cacheable w (loads j v e)).phase j ≡ loaded f v e)
        × ((step key cacheable w (loads j v e)).phase i ≡ waiting f)
  unfolding step load
  load_phases v e leads = rw leads (ground arith)

-- Where the leader of a flight stands.
flying-cases :
    (p : Phase) (f : ℕ)
    → flying p ≡ some f
    → (p ≡ leading f) ⊎ ((v : List ℕ) × (e : Option Str) × ((p ≡ loaded f v e) ⊎ (p ≡ kept f v e)))
flying-cases (leading g) f h = inl (ground arith)
flying-cases (loaded g v e) f h = inr (v, e, inl (ground arith))
flying-cases (kept g v e) f h = inr (v, e, inr (ground arith))
flying-cases p f h = absurd (cc)

awaited-waiting : (p : Phase) (f : ℕ) → awaited p ≡ some f → p ≡ waiting f
awaited-waiting (waiting g) f h = ground arith
awaited-waiting p f h = absurd (cc)

-- The call `i` can go on to an answer of the flight `f`.
abbrev pub CanReturn : (ℕ → Str) → (ℕ → List ℕ → Bool) → World → ℕ → ℕ → Type 0
CanReturn key cacheable w i f =
    (more : List Event) × (v : List ℕ) × (e : Option Str) × (answered
        ((run key cacheable w more).phase i)
      ≡ some (f, v, e))

module _ (key : ℕ → Str) (cacheable : ℕ → List ℕ → Bool) where
  return_kept :
      (w : World) (i j f : ℕ) (v : List ℕ) (e : Option Str)
      → w.phase i ≡ waiting f
      → w.phase j ≡ kept f v e
      → CanReturn key cacheable w i f
  return_kept w i j f v e waits leads =
      (lands j ∷ wakes i ∷ [], v, e, land_wake key cacheable w i j f waits v e leads)

  return_loaded :
      (w : World) (i j f : ℕ) (v : List ℕ) (e : Option Str)
      → w.phase i ≡ waiting f
      → w.phase j ≡ loaded f v e
      → CanReturn key cacheable w i f
  return_loaded w i j f v e waits leads =
      let (leads', waits') = keep_phases key cacheable w i j f waits 0 v e leads in
      let (more, u, d, r) =
        return_kept (step key cacheable w (keeps j 0)) i j f v e waits' leads' in
      (keeps j 0 ∷ more, u, d, r)

  return_leading :
      (w : World) (i j f : ℕ)
      → w.phase i ≡ waiting f
      → w.phase j ≡ leading f
      → CanReturn key cacheable w i f
  return_leading w i j f waits leads =
      let (leads', waits') = load_phases key cacheable w i j f waits [] none leads in
      let (more, u, d, r) =
        return_loaded (step key cacheable w (loads j [] none)) i j f [] none waits' leads' in
      (loads j [] none ∷ more, u, d, r)

  return_done :
      (w : World) (i f : ℕ)
      → w.phase i ≡ waiting f
      → (w.store f).done ≡ true
      → CanReturn key cacheable w i f
  unfolding step wake
  return_done w i f waits done =
      (wakes i ∷ [], (w.store f).value, (w.store f).err, rw (waits, done) (ground arith))

  -- In any interleaving of calls, a call that waits for a flight can still return an answer of it,
  -- by further events: the flight has landed, or a call leads it that can land it, once its provider
  -- has answered.
  pub waiting-CanReturn :
      (c : Cache) (es : List Event) (i f : ℕ)
      → awaited ((behind key cacheable c es).phase i) ≡ some f
      → CanReturn key cacheable (behind key cacheable c es) i f
  waiting-CanReturn c es i f h =
      let w = behind key cacheable c es in
      let ok = valid key cacheable c es in
      let waits = awaited-waiting (w.phase i) f h in
      elim (ok.hopeful i f h).1 [
        | inl done ↦ return_done w i f waits done
        | inr up ↦
            let (lt, (j, leads, same)) = ok.led (key i) f up in
            elim (flying-cases (w.phase j) f leads) [
              | inl p ↦ return_leading w i j f waits p
              | inr (u, d, inl p) ↦ return_loaded w i j f u d waits p
              | inr (u, d, inr p) ↦ return_kept w i j f u d waits p
            ]
      ]
