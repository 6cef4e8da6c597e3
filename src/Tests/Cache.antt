-- ===== src/Tests/Cache.antt =====
-- Runs of the result cache.
use atenea.Prelude.{ℕ, ◌≤◌, ◌≡◌, refl, true, List, [], ◌∷◌, ◌++◌, some, arith, lookup}
use atenea.Prelude.Str.{Str, codes, str_eq}
use atenea.ResultCache.Lists.{Entry, remove_elem}
use atenea.ResultCache.{Cache, get, fresh_entry, put}
use atenea.ResultCache.Bounds.{IsValid}
use atenea.ResultCache.Reads.{stored, get-IsValid, get-stored}
use atenea.ResultCache.Order.{Maximal, put_lem}

abbrev key_a : Str
key_a = codes "a"

abbrev key_b : Str
key_b = codes "b"

abbrev key_c : Str
key_c = codes "c"

abbrev entry_a : Entry
entry_a = record { key = key_a; value = 1 ∷ 2 ∷ []; bytes = 2; expires = 50 }

abbrev entry_b : Entry
entry_b = record { key = key_b; value = 3 ∷ []; bytes = 1; expires = 60 }

-- Two entries at most, `b` used last.
abbrev two_entries : Cache
two_entries = record {
  cfg = record { max_entries = 2; max_bytes = 8; ttl = 10 };
  bytes = 3;
  items = (key_b, entry_b) ∷ (key_a, entry_a) ∷ [];
  lru = entry_b ∷ entry_a ∷ [];
}

two_entries-IsValid : IsValid two_entries
unfolding lookup str_eq
two_entries-IsValid = record {
  consistent = record {
    distinct = (refl, (refl, tt));
    distinct_items = (refl, (refl, tt));
    agree = λ k. refl;
    size = refl;
    counted = refl;
  };
  positive = omega arith;
  entries_within = omega arith;
  bytes_within = omega arith;
}

-- A third entry pushes out the one used longest ago.
abbrev entry_c : Entry
entry_c = record { key = key_c; value = 4 ∷ []; bytes = 1; expires = 30 }

abbrev after_c : Cache
after_c = record two_entries {
  bytes = 2;
  items = (key_b, entry_b) ∷ (key_c, entry_c) ∷ [];
  lru = entry_c ∷ entry_b ∷ [];
}

get-IsValid_example : IsValid (get 20 key_a two_entries).0
get-IsValid_example = get-IsValid 20 key_a two_entries two_entries-IsValid

get-stored_example :
    ((get 55 key_a two_entries).1 ≡ stored 55 key_a two_entries)
    × ((t : ℕ) (j : Str)
        → 55 ≤ t
        → stored t j (get 55 key_a two_entries).0 ≡ stored t j two_entries)
get-stored_example = get-stored 55 key_a two_entries two_entries-IsValid (λ e. cc)

put_lem_example :
    (c' : Cache) × (dropped : List Entry) × (put 20 key_c (4 ∷ []) two_entries ≡ some (c', true))
    × IsValid c'
    × (fresh_entry 20 key_c (4 ∷ []) two_entries ∷ remove_elem key_c two_entries.lru
        ≡ c'.lru ++ dropped)
    × Maximal two_entries.cfg c'.lru dropped
put_lem_example = put_lem 20 key_c (4 ∷ []) two_entries two_entries-IsValid (λ e. cc) (omega arith)
