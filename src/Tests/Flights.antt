-- ===== src/Tests/Flights.antt =====
-- Runs of calls that share a provider call, of the tail of a process's output, and of versions.
use atenea.Prelude.Str.{Str, codes, str_eq}
use atenea.Prelude.{
  ℕ, ◌≡◌, refl, Bool, ◌≤◌, true, List, [], ◌∷◌, ◌++◌, Option, some, none, lookup, insert, delete,
  length,
}
use atenea.ResultCache.{Cache, get, get_locked}
use atenea.ResultCache.Flights.{
  Event, looks, locks, loads, keeps, lands, wakes, step, look, looked, take_off, revalidated, board,
  load, keep, land, wake,
}
use atenea.ResultCache.Flights.Invariant.{flying, answered, awaited}
use atenea.ResultCache.Flights.Progress.{behind, flights_lem, CanReturn, waiting-CanReturn}
use atenea.Supervisor.Ring.{new_ring, write}
use atenea.Supervisor.Ring.Tail.{last, write_all, concat, write_all_lem}
use atenea.Contract.Version.{
  parse_version, parse_parts, parse_uint, digits_value, split, supports, current,
}

abbrev empty_cache : Cache
empty_cache = record {
  cfg = record { max_entries = 2; max_bytes = 8; ttl = 10 };
  bytes = 0;
  items = [];
  lru = [];
}

abbrev same_key : ℕ → Str
same_key i = codes "a"

abbrev keep_all : ℕ → List ℕ → Bool
keep_all i value = true

-- Call 0 leads, call 1 joins it, and the provider answers.
abbrev shared : List Event
shared = looks 0 5 ∷ looks 1 5 ∷ locks 0 6 ∷ locks 1 6 ∷ loads 0 (7 ∷ []) none ∷ []

waits_for_leader : awaited ((behind same_key keep_all empty_cache shared).phase 1) ≡ some 0
unfolding step look looked take_off revalidated board load get get_locked lookup insert str_eq
waits_for_leader = refl

shares_answer :
    answered (
      (behind same_key keep_all empty_cache (shared ++ keeps 0 8 ∷ lands 0 ∷ wakes 1 ∷ [])).phase 1)
    ≡ some (0, 7 ∷ [], none)
unfolding step look looked take_off revalidated board load get get_locked lookup insert str_eq keep
    land wake delete
shares_answer = refl

waiting-CanReturn_example :
    CanReturn same_key keep_all (behind same_key keep_all empty_cache shared) 1 0
waiting-CanReturn_example =
    waiting-CanReturn same_key keep_all empty_cache shared 1 0 waits_for_leader

flights_lem_example :
    ((i j f g : ℕ)
      → flying ((behind same_key keep_all empty_cache shared).phase i) ≡ some f
      → flying ((behind same_key keep_all empty_cache shared).phase j) ≡ some g
      → same_key i ≡ same_key j
      → i ≡ j)
    × ((i j f : ℕ) (v u : List ℕ) (d e : Option Str)
        → answered ((behind same_key keep_all empty_cache shared).phase i) ≡ some (f, v, d)
        → answered ((behind same_key keep_all empty_cache shared).phase j) ≡ some (f, u, e)
        → (v ≡ u) × (d ≡ e))
flights_lem_example = flights_lem same_key keep_all empty_cache shared

-- Five bytes through a ring of four.
ring_run : (write_all (new_ring 4) ((1 ∷ 2 ∷ 3 ∷ []) ∷ (4 ∷ 5 ∷ []) ∷ [])).buf ≡ 2 ∷ 3 ∷ 4 ∷ 5 ∷ []
unfolding write
ring_run = refl

write_all_lem_example :
    ((write_all (new_ring 4) ((1 ∷ 2 ∷ 3 ∷ []) ∷ (4 ∷ 5 ∷ []) ∷ [])).buf
      ≡ last 4 (concat ((1 ∷ 2 ∷ 3 ∷ []) ∷ (4 ∷ 5 ∷ []) ∷ [])))
    × (length (write_all (new_ring 4) ((1 ∷ 2 ∷ 3 ∷ []) ∷ (4 ∷ 5 ∷ []) ∷ [])).buf ≤ 4)
write_all_lem_example = write_all_lem 4 ((1 ∷ 2 ∷ 3 ∷ []) ∷ (4 ∷ 5 ∷ []) ∷ [])

parse_run : parse_version (codes "5.10.3") ≡ some (record { major = 5; minor = 10; patch = 3 })
unfolding parse_version parse_parts parse_uint digits_value split
parse_run = refl

-- 2^64 is out of range.
parse_overflow : parse_version (codes "18446744073709551616.0.0") ≡ none
unfolding parse_version parse_parts parse_uint digits_value split
parse_overflow = refl

lagging_peer : supports current (record { major = 5; minor = 0; patch = 9 }) ≡ true
unfolding supports
lagging_peer = refl
