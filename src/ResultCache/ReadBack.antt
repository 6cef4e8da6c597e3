-- ===== src/ResultCache/ReadBack.antt =====
-- internal/resultcache/cache.go: what `Get` finds after `Put`.
use atenea.Prelude.{ℕ, List, [], ◌∷◌}
use atenea.Prelude.Str.{Str}
use atenea.ResultCache.Lists.{Entry}
use atenea.ResultCache.{Cache, fresh_entry, get}

module _ (now : ℕ) (key : Str) (value : List ℕ) (c c' : Cache) where
  abbrev new_entry : Entry
  new_entry = fresh_entry now key value c

-- Reads at some instants, one after another.
abbrev pub read_all : Cache → List (ℕ × Str) → Cache
read_all c [] = c
read_all c ((t, j) ∷ reads) = read_all (get t j c).0 reads
