-- ===== src/ResultCache/Flights/Steps.antt =====
-- internal/resultcache/cache.go: the calls of `DoIfState`, interleaved in any way.
use atenea.Prelude.Str.{Str}
use atenea.Prelude.{ℕ, ◌≡◌, refl, Bool, List, [], ◌∷◌, Option, none, some, lookup}
use atenea.ResultCache.{Cache}
use atenea.ResultCache.Flights.{
  Phase, entering, missed, leading, loaded, kept, waiting, stored, World, board, looked,
  revalidated, look, take_off, load, keep, land, wake, cancel, step, run, Event, looks, locks,
  loads, keeps, lands, wakes, cancels,
}
use atenea.ResultCache.Flights.Invariant.{IsValid, started}
use atenea.ResultCache.Flights.Keep.{
  quiet-IsValid, lead-IsValid, join-IsValid, start-IsValid, land-IsValid, wake-IsValid,
  cancel-IsValid,
}

-- Another cache changes nothing of the calls.
cached-IsValid :
    (key : ℕ → Str) (w : World) (c : Cache) → IsValid key w → IsValid key (record w { cache = c })
cached-IsValid key w c v = record {
  airborne = v.airborne;
  led = v.led;
  alone = v.alone;
  hopeful = v.hopeful;
  truthful = v.truthful;
}

pub started-IsValid : (key : ℕ → Str) (c : Cache) → IsValid key (started c)
unfolding lookup
started-IsValid key c = record {
  airborne = λ i f h. absurd (cc);
  led = λ k f h. absurd (cc);
  alone = λ i j f h g. absurd (cc);
  hopeful = λ i f h. absurd (cc);
  truthful = λ i f value err h. absurd (cc);
}

module _ (key : ℕ → Str) (cacheable : ℕ → List ℕ → Bool) where
  looked-IsValid :
      (i : ℕ) (w : World) (answer : Option (List ℕ))
      → w.phase i ≡ entering
      → IsValid key w
      → IsValid key (looked i w answer)
  unfolding looked
  looked-IsValid i w none here v =
      quiet-IsValid key cacheable w i missed w.cache (rw here refl) refl refl refl v
  looked-IsValid i w (some value) here v =
      quiet-IsValid key cacheable w i (stored value) w.cache (rw here refl) refl refl refl v

  look-IsValid :
      (i now : ℕ) (w : World) (p : Phase)
      → w.phase i ≡ p
      → IsValid key w
      → IsValid key (look key cacheable i now w p)
  unfolding look
  look-IsValid i now w entering here v = looked-IsValid i _ _ here (cached-IsValid key w _ v)
  look-IsValid i now w p here v = v

  board-IsValid :
      (w : World) (i : ℕ) (o : Option ℕ)
      → w.phase i ≡ missed
      → lookup (key i) w.flights ≡ o
      → IsValid key w
      → IsValid key (board w i (key i) o)
  board-IsValid w i none here e v = start-IsValid key cacheable w i here e v
  board-IsValid w i (some f) here e v = join-IsValid key cacheable w i f here e v

  revalidated-IsValid :
      (i : ℕ) (w : World) (answer : Option (List ℕ))
      → w.phase i ≡ missed
      → IsValid key w
      → IsValid key (revalidated (key i) i w answer)
  unfolding revalidated
  revalidated-IsValid i w none here v = board-IsValid w i (lookup (key i) w.flights) here refl v
  revalidated-IsValid i w (some value) here v =
      quiet-IsValid key cacheable w i (stored value) w.cache (rw here refl) refl refl refl v

  take_off-IsValid :
      (i now : ℕ) (w : World) (p : Phase)
      → w.phase i ≡ p
      → IsValid key w
      → IsValid key (take_off key cacheable i now w p)
  unfolding take_off
  take_off-IsValid i now w missed here v = revalidated-IsValid i _ _ here (cached-IsValid key w _ v)
  take_off-IsValid i now w p here v = v

  load-IsValid :
      (i : ℕ) (value : List ℕ) (err : Option Str) (w : World) (p : Phase)
      → w.phase i ≡ p
      → IsValid key w
      → IsValid key (load key cacheable i value err w p)
  unfolding load
  load-IsValid i value err w (leading f) here v =
      lead-IsValid key cacheable w i f (loaded f value err) w.cache (rw here refl) refl refl refl v
  load-IsValid i value err w p here v = v

  keep-IsValid :
      (i now : ℕ) (w : World) (p : Phase)
      → w.phase i ≡ p
      → IsValid key w
      → IsValid key (keep key cacheable i now w p)
  unfolding keep
  keep-IsValid i now w (loaded f value err) here v =
      lead-IsValid key cacheable w i f (kept f value err) _ (rw here refl) refl refl refl v
  keep-IsValid i now w p here v = v

  landed-IsValid :
      (i : ℕ) (w : World) (p : Phase)
      → w.phase i ≡ p
      → IsValid key w
      → IsValid key (land key cacheable i w p)
  landed-IsValid i w (kept f value err) here v = land-IsValid key cacheable w i f value err here v
  landed-IsValid i w p here v = unfold land in v

  woken-IsValid :
      (i : ℕ) (w : World) (p : Phase)
      → w.phase i ≡ p
      → IsValid key w
      → IsValid key (wake key cacheable i w p)
  woken-IsValid i w (waiting f) here v = wake-IsValid key cacheable w i f here v
  woken-IsValid i w p here v = unfold wake in v

  canceled-IsValid :
      (i : ℕ) (w : World) (p : Phase)
      → w.phase i ≡ p
      → IsValid key w
      → IsValid key (cancel key cacheable i w p)
  canceled-IsValid i w (waiting f) here v = cancel-IsValid key cacheable w i f here v
  canceled-IsValid i w p here v = unfold cancel in v

  pub step-IsValid : (w : World) (e : Event) → IsValid key w → IsValid key (step key cacheable w e)
  unfolding step
  step-IsValid w (looks i now) v = look-IsValid i now w (w.phase i) refl v
  step-IsValid w (locks i now) v = take_off-IsValid i now w (w.phase i) refl v
  step-IsValid w (loads i value err) v = load-IsValid i value err w (w.phase i) refl v
  step-IsValid w (keeps i now) v = keep-IsValid i now w (w.phase i) refl v
  step-IsValid w (lands i) v = landed-IsValid i w (w.phase i) refl v
  step-IsValid w (wakes i) v = woken-IsValid i w (w.phase i) refl v
  step-IsValid w (cancels i) v = canceled-IsValid i w (w.phase i) refl v

  pub run-IsValid :
      (w : World) (es : List Event) → IsValid key w → IsValid key (run key cacheable w es)
  run-IsValid w [] v = v
  run-IsValid w (e ∷ es) v = run-IsValid (step key cacheable w e) es (step-IsValid w e v)
