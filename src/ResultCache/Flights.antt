-- ===== src/ResultCache/Flights.antt =====
-- internal/resultcache/cache.go: `DoIfState`, the calls that join one provider call. A call is cut
-- into the parts that run without a break, at each lock and at each wait; any calls may run between
-- two parts. Call `i` asks for the key `key i`, and keeps values that pass `cacheable i`.
pub mod Invariant
pub mod Keep
pub mod Steps
pub mod Progress
use atenea.Prelude.Str.{Str}
use atenea.Prelude.{
  update, ℕ, suc, ◌+◌, ◌-◌, Bool, true, false, ◌==◌, List, [], ◌∷◌, Option, none, some,
  if◌then◌else◌, lookup, insert, delete,
}
use atenea.ResultCache.{Cache, get, get_locked, put}

-- `done` says that the channel is closed. An error is its text, none for nil.
pub record Flight : Type 0 where
  pub done : Bool
  pub value : List ℕ
  pub err : Option Str
  pub waiters : ℕ

-- Where a call stands. The last four are its returns: `stored` with `SourceStored`, `landed` with
-- `SourceLeader`, `joined` and `canceled` with `SourceWaiter`.
pub data Phase : Type 0 where
  entering : Phase
  missed : Phase
  leading : (f : ℕ) → Phase
  loaded : (f : ℕ) (value : List ℕ) (err : Option Str) → Phase
  kept : (f : ℕ) (value : List ℕ) (err : Option Str) → Phase
  waiting : (f : ℕ) → Phase
  stored : (value : List ℕ) → Phase
  landed : (f : ℕ) (value : List ℕ) (err : Option Str) → Phase
  joined : (f : ℕ) (value : List ℕ) (err : Option Str) → Phase
  canceled : (f : ℕ) → Phase

-- The cache, the map `flights` with the flights that it and the calls point to, and the calls.
pub record World : Type 0 where
  pub cache : Cache
  pub flights : List (Str × ℕ)
  pub store : ℕ → Flight
  pub next : ℕ
  pub phase : ℕ → Phase

-- What the environment lets run next: a part of call `i`, the answer of its provider, or the end of
-- its context.
pub data Event : Type 0 where
  looks : (i now : ℕ) → Event
  locks : (i now : ℕ) → Event
  loads : (i : ℕ) (value : List ℕ) (err : Option Str) → Event
  keeps : (i now : ℕ) → Event
  lands : (i : ℕ) → Event
  wakes : (i : ℕ) → Event
  cancels : (i : ℕ) → Event

abbrev fresh_flight : Flight
fresh_flight = record { done = false; value = []; err = none; waiters = 0 }

-- The flight behind the map lookup: join it, or lead a new one.
unfoldable pub board : World → ℕ → Str → Option ℕ → World
board w i k (some f) = record w {
  store = update w.store f (record (w.store f) { waiters = (w.store f).waiters + 1 });
  phase = update w.phase i (waiting f);
}
board w i k none = record w {
  flights = insert k w.next w.flights;
  store = update w.store w.next fresh_flight;
  next = suc w.next;
  phase = update w.phase i (leading w.next);
}

-- A call that found its value returns it.
unfoldable pub looked : ℕ → World → Option (List ℕ) → World
looked i w (some v) = record w { phase = update w.phase i (stored v) }
looked i w none = record w { phase = update w.phase i missed }

unfoldable pub revalidated : Str → ℕ → World → Option (List ℕ) → World
revalidated k i w (some v) = record w { phase = update w.phase i (stored v) }
revalidated k i w none = board w i k (lookup k w.flights)

module _ (key : ℕ → Str) (cacheable : ℕ → List ℕ → Bool) where
  -- The first `Get`.
  unfoldable pub look : ℕ → ℕ → World → Phase → World
  look i now w entering =
      let (c, answer) = get now (key i) w.cache in looked i (record w { cache = c }) answer
  look i now w _ = w

  -- The first locked part.
  unfoldable pub take_off : ℕ → ℕ → World → Phase → World
  take_off i now w missed =
      let (c, answer) = get_locked now (key i) w.cache in
      revalidated (key i) i (record w { cache = c }) answer
  take_off i now w _ = w

  -- `load` returns.
  unfoldable pub load : ℕ → List ℕ → Option Str → World → Phase → World
  load i value err w (leading f) = record w { phase = update w.phase i (loaded f value err) }
  load i value err w _ = w

  abbrev to_keep : ℕ → List ℕ → Option Str → Bool
  to_keep i value none = cacheable i value
  to_keep i value (some e) = false

  -- `Put`, where the answer is to be kept.
  unfoldable pub keep : ℕ → ℕ → World → Phase → World
  keep i now w (loaded f value err) = record w {
    cache =
        if to_keep i value err
        then elim (put now (key i) value w.cache) [ none ↦ w.cache | some (c, done) ↦ c ]
        else w.cache;
    phase = update w.phase i (kept f value err);
  }
  keep i now w _ = w

  -- The last locked part.
  unfoldable pub land : ℕ → World → Phase → World
  land i w (kept f value err) = record w {
    store = update w.store f (record (w.store f) { done = true; value = value; err = err });
    flights = delete (key i) w.flights;
    phase = update w.phase i (landed f value err);
  }
  land i w _ = w

  -- The wait ends by the channel, which a closed channel allows.
  unfoldable pub wake : ℕ → World → Phase → World
  wake i w (waiting f) =
      if (w.store f).done
      then record w {
        store = update w.store f (record (w.store f) { waiters = (w.store f).waiters - 1 });
        phase = update w.phase i (joined f (w.store f).value (w.store f).err);
      }
      else w
  wake i w _ = w

  -- The wait ends by the context.
  unfoldable pub cancel : ℕ → World → Phase → World
  cancel i w (waiting f) = record w {
    store = update w.store f (record (w.store f) { waiters = (w.store f).waiters - 1 });
    phase = update w.phase i (canceled f);
  }
  cancel i w _ = w

  -- An event whose call is elsewhere changes nothing.
  unfoldable pub step : World → Event → World
  step w (looks i now) = look i now w (w.phase i)
  step w (locks i now) = take_off i now w (w.phase i)
  step w (loads i value err) = load i value err w (w.phase i)
  step w (keeps i now) = keep i now w (w.phase i)
  step w (lands i) = land i w (w.phase i)
  step w (wakes i) = wake i w (w.phase i)
  step w (cancels i) = cancel i w (w.phase i)

  abbrev pub run : World → List Event → World
  run w [] = w
  run w (e ∷ es) = run (step w e) es
