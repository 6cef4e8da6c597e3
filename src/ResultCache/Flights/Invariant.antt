-- ===== src/ResultCache/Flights/Invariant.antt =====
-- internal/resultcache/cache.go: what holds between calls and flights.
use atenea.Prelude.Str.{Str}
use atenea.Prelude.{ℕ, ◌<◌, ◌≡◌, ◌⊎◌, true, false, List, [], Option, none, some, lookup}
use atenea.ResultCache.{Cache}
use atenea.ResultCache.Flights.{
  Phase, entering, leading, loaded, kept, waiting, landed, joined, World,
}

-- The flight that a call leads and has not landed.
abbrev pub flying : Phase → Option ℕ
flying (leading f) = some f
flying (loaded f value err) = some f
flying (kept f value err) = some f
flying _ = none

-- The flight whose answer a call returned, with that answer.
abbrev pub answered : Phase → Option (ℕ × List ℕ × Option Str)
answered (landed f value err) = some (f, value, err)
answered (joined f value err) = some (f, value, err)
answered _ = none

-- The flight that a call waits for.
abbrev pub awaited : Phase → Option ℕ
awaited (waiting f) = some f
awaited _ = none

module _ (key : ℕ → Str) where
  pub record IsValid (w : World) : Type 0 where
    pub airborne :
        (i f : ℕ)
        → flying (w.phase i) ≡ some f
        → (lookup (key i) w.flights ≡ some f) × ((w.store f).done ≡ false)
    pub led :
        (k : Str) (f : ℕ)
        → lookup k w.flights ≡ some f
        → (f < w.next) × ((i : ℕ) × (flying (w.phase i) ≡ some f) × (key i ≡ k))
    pub alone : (i j f : ℕ) → flying (w.phase i) ≡ some f → flying (w.phase j) ≡ some f → i ≡ j
    pub hopeful :
        (i f : ℕ)
        → awaited (w.phase i) ≡ some f
        → (f < w.next) × (((w.store f).done ≡ true) ⊎ (lookup (key i) w.flights ≡ some f))
    pub truthful :
        (i f : ℕ) (value : List ℕ) (err : Option Str)
        → answered (w.phase i) ≡ some (f, value, err)
        → (f < w.next)
          × ((w.store f).done ≡ true)
          × ((w.store f).value ≡ value)
          × ((w.store f).err ≡ err)

-- A new cache, before any call.
abbrev pub started : Cache → World
started c = record {
  cache = c;
  flights = [];
  store = λ f. record { done = false; value = []; err = none; waiters = 0 };
  next = 0;
  phase = λ i. entering;
}
