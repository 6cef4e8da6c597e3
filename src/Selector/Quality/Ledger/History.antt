-- ===== src/Selector/Quality/Ledger/History.antt =====
-- internal/selector/quality.go: any sequence of `Record` by books that share a file, with failures
-- of the input and output among them.
use mathlib.Core.List.{Permᴰ}
use atenea.Prelude.Float.{Float64}
use atenea.Prelude.Str.{Str, str_eq}
use atenea.Prelude.{update, ℕ, zero, suc, ◌+◌, ◌<◌, ◌≡◌, true, false, List, [], ◌∷◌, All}
use atenea.Selector.Quality.{Observation}
use atenea.Selector.Quality.Tally.{IsRatio, Row}
use atenea.Selector.Quality.Ledger.{Key, QualityBook, Trouble, row_root, record_observation}
use atenea.Selector.Quality.Ledger.Weights.{weigh}
use atenea.Selector.Quality.Ledger.Sound.{Entry, keyed}
use atenea.Selector.Quality.Ledger.Merge.{counted}
use atenea.Selector.Quality.Ledger.Steps.{SoundFile}
use atenea.Selector.Quality.Ledger.Record.{fresh}

-- A call of `Record` by one of the books.
pub record Call : Type 0 where
  pub book : ℕ
  pub now : ℕ
  pub trouble : Trouble
  pub sample : Observation

-- The books of the processes, and the file.
pub record Ledgers : Type 0 where
  pub books : ℕ → QualityBook
  pub file : List Observation

abbrev pub opened : Ledgers
opened = record { books = λ i. record { by_key = []; pending = []; durable = true }; file = [] }

abbrev pub sum_below : ℕ → (ℕ → ℕ) → ℕ
sum_below zero f = 0
sum_below (suc n) f = sum_below n f + f n

module _ (canonical : Str → Str)
    (canonical-twice : (s : Str) → canonical (canonical s) ≡ canonical s) (ratio : ℕ → ℕ → Float64)
    (h : IsRatio ratio) (arrange : List Observation → List Observation)
    (arrange-Perm : (rows : List Observation) → Permᴰ (arrange rows) rows) where
  abbrev step : Ledgers → Call → Ledgers
  step w c =
      let r =
        record_observation canonical ratio arrange c.now c.trouble c.sample (w.books c.book)
          w.file in
      record { books = update w.books c.book r.0; file = r.1 }

  abbrev pub run : Ledgers → List Call → Ledgers
  run w [] = w
  run w (c ∷ calls) = run (step w c) calls

  -- A sample as `Observe` makes it, of a repository that has a root, recorded by a book below `n`.
  abbrev pub Usable : ℕ → Call → Type 0
  Usable n c =
      Row ratio c.sample × (str_eq (row_root canonical ratio c.sample) [] ≡ false) × (c.book < n)

  abbrev pub recorded : Key → List Call → ℕ
  recorded k [] = 0
  recorded k (c ∷ calls) =
      fresh canonical canonical-twice ratio h arrange arrange-Perm k c.sample + recorded k calls

  abbrev pub in_file : Key → Ledgers → ℕ
  in_file k w = weigh counted k (keyed canonical ratio w.file)

  abbrev pub waiting : Key → QualityBook → ℕ
  waiting k b = weigh counted k b.pending

  abbrev SoundLedgers : Ledgers → Type 0
  SoundLedgers w =
      SoundFile canonical ratio w.file × ((i : ℕ) → All (Entry canonical ratio) (w.books i).pending)

  abbrev pub counted_in : ℕ → Key → Ledgers → ℕ
  counted_in n k w = in_file k w + sum_below n (λ i. waiting k (w.books i))
