-- ===== src/ResultCache/Flights/Keep.antt =====
-- internal/resultcache/cache.go: every event keeps the invariant of calls and flights.
use atenea.Prelude.Str.{Str, str_eq, str_eq_iff}
use atenea.Prelude.{
  update, ℕ, ◌≡◌, inl, inr, sym, Bool, false, List, Option, none, some, lookup, lookup-insert,
  lookup-insert-cases, lookup-delete, arith, Bool-cases,
}
use atenea.ResultCache.{Cache}
use atenea.ResultCache.Flights.{Phase, missed, kept, waiting, World, board, land, wake, cancel}
use atenea.ResultCache.Flights.Invariant.{IsValid, flying, answered, awaited}

module _ (key : ℕ → Str) (cacheable : ℕ → List ℕ → Bool) where
  -- A call that leads nothing goes where it leads, awaits and answers nothing.
  pub quiet-IsValid :
      (w : World) (i : ℕ) (p : Phase) (c : Cache)
      → flying (w.phase i) ≡ none
      → flying p ≡ none
      → awaited p ≡ none
      → answered p ≡ none
      → IsValid key w
      → IsValid key (record w { cache = c; phase = update w.phase i p })
  quiet-IsValid w i p c idle pf pa pn v = record {
    airborne = λ j f h. ground (arith, v.airborne j f);
    led = λ k f h. let (lt, (j, fl, kj)) = v.led k f h in (lt, (j, ground arith, kj));
    alone = λ j l f h g. ground (arith, v.alone j l f);
    hopeful = λ j f h. ground (arith, v.hopeful j f);
    truthful = λ j f value err h. ground (arith, v.truthful j f value err);
  }

  -- A call that leads a flight goes on leading it.
  pub lead-IsValid :
      (w : World) (i f : ℕ) (p : Phase) (c : Cache)
      → flying (w.phase i) ≡ some f
      → flying p ≡ some f
      → awaited p ≡ none
      → answered p ≡ none
      → IsValid key w
      → IsValid key (record w { cache = c; phase = update w.phase i p })
  lead-IsValid w i f p c old pf pa pn v = record {
    airborne = λ j g h. ground (arith, v.airborne j g);
    led = λ k g h. let (lt, (j, fl, kj)) = v.led k g h in (lt, (j, ground arith, kj));
    alone = λ j l g h h'. ground (arith, v.alone j l g);
    hopeful = λ j g h. ground (arith, v.hopeful j g);
    truthful = λ j g value err h. ground (arith, v.truthful j g value err);
  }

  pub join-IsValid :
      (w : World) (i f : ℕ)
      → w.phase i ≡ missed
      → lookup (key i) w.flights ≡ some f
      → IsValid key w
      → IsValid key (board w i (key i) (some f))
  unfolding board
  join-IsValid w i f here up v = record {
    airborne = λ j g h. ground (arith, v.airborne j g);
    led = λ k g h. let (lt, (j, fl, kj)) = v.led k g h in (lt, (j, ground arith, kj));
    alone = λ j l g h h'. ground (arith, v.alone j l g);
    hopeful = λ j g h. ground (arith, v.hopeful j g, v.led (key i) f);
    truthful = λ j g value err h. ground (arith, v.truthful j g value err);
  }

  pub start-IsValid :
      (w : World) (i : ℕ)
      → w.phase i ≡ missed
      → lookup (key i) w.flights ≡ none
      → IsValid key w
      → IsValid key (board w i (key i) none)
  unfolding board
  start-IsValid w i here down v = record {
    airborne = λ j g h. ground (
      arith,
      v.airborne j g,
      v.led (key j) g,
      lookup-insert (key i) (key j) w.next w.flights,
      str_eq_iff (key i) (key j),
    );
    led = λ k g h. elim (lookup-insert-cases (key i) k w.next g w.flights h) [
      | inl (a, b) ↦ (omega (arith, b), (i, ground arith, sym a))
      | inr (other, e) ↦ let (lt, (j, fl, kj)) = v.led k g e in (omega arith, (j, ground arith, kj))
    ];
    alone = λ j l g h h'.
        ground
          (arith, v.alone j l g, v.airborne j g, v.airborne l g, v.led (key j) g, v.led (key l) g);
    hopeful = λ j g h. ground (
      arith,
      v.hopeful j g,
      lookup-insert (key i) (key j) w.next w.flights,
      str_eq_iff (key i) (key j),
    );
    truthful = λ j g value err h. ground (arith, v.truthful j g value err);
  }

  pub land-IsValid :
      (w : World) (i f : ℕ) (value : List ℕ) (err : Option Str)
      → w.phase i ≡ kept f value err
      → IsValid key w
      → IsValid key (land key cacheable i w (kept f value err))
  unfolding land
  land-IsValid w i f value err here v = record {
    airborne = λ j g h. ground (
      arith,
      v.airborne j g,
      v.airborne i f,
      v.alone i j g,
      lookup-delete (key i) (key j) w.flights,
      str_eq_iff (key i) (key j),
    );
    led = λ k g h.
        let e : (str_eq (key i) k ≡ false) × (lookup k w.flights ≡ some g) =
          ground (arith, lookup-delete (key i) k w.flights) in
        let (lt, (j, fl, kj)) = v.led k g e.1 in
        (lt, (j, ground (arith, str_eq_iff (key i) k), kj));
    alone = λ j l g h h'. ground (arith, v.alone j l g);
    hopeful = λ j g h. ground (
      arith,
      v.hopeful j g,
      v.airborne i f,
      lookup-delete (key i) (key j) w.flights,
      str_eq_iff (key i) (key j),
    );
    truthful = λ j g value' err' h.
        ground (arith, v.truthful j g value' err', v.airborne i f, v.led (key i) f);
  }

  pub wake-IsValid :
      (w : World) (i f : ℕ)
      → w.phase i ≡ waiting f
      → IsValid key w
      → IsValid key (wake key cacheable i w (waiting f))
  unfolding wake
  wake-IsValid w i f here v = elim (Bool-cases (w.store f).done) [
    | inr open_still ↦ rw open_still v
    | inl closed ↦ rw closed (record {
      airborne = λ j g h. ground (arith, v.airborne j g);
      led = λ k g h. let (lt, (j, fl, kj)) = v.led k g h in (lt, (j, ground arith, kj));
      alone = λ j l g h h'. ground (arith, v.alone j l g);
      hopeful = λ j g h. ground (arith, v.hopeful j g);
      truthful = λ j g value err h. ground (arith, v.truthful j g value err, v.hopeful i f);
    })
  ]

  pub cancel-IsValid :
      (w : World) (i f : ℕ)
      → w.phase i ≡ waiting f
      → IsValid key w
      → IsValid key (cancel key cacheable i w (waiting f))
  unfolding cancel
  cancel-IsValid w i f here v = record {
    airborne = λ j g h. ground (arith, v.airborne j g);
    led = λ k g h. let (lt, (j, fl, kj)) = v.led k g h in (lt, (j, ground arith, kj));
    alone = λ j l g h h'. ground (arith, v.alone j l g);
    hopeful = λ j g h. ground (arith, v.hopeful j g);
    truthful = λ j g value err h. ground (arith, v.truthful j g value err);
  }
