-- ===== src/Selector/Quality/Ledger/Blank.antt =====
-- internal/selector/quality.go: an observation of a repository that has no root.
use atenea.Prelude.Float.{Float64}
use atenea.Prelude.Str.{Str, str_eq}
use atenea.Prelude.{ℕ, ◌≡◌, refl, ap, ◌∙◌, true, false, List, [], ◌∷◌, none, some, arith}
use atenea.Selector.Quality.{Observation}
use atenea.Selector.Quality.Book.{normalize, merge_quality}
use atenea.Selector.Quality.Tally.{Row, normalize-Row}
use atenea.Selector.Quality.Ledger.{
  QualityBook, no_trouble, put_key, at_key, row_root, accept_row, read_rows, merge_pending,
  write_back, persist, unrecorded, stamped, record_observation,
}
use atenea.Selector.Quality.Ledger.Sound.{denied-Row}
use atenea.Selector.Quality.Ledger.Record.{relabel-Row}

abbrev pub new_book : QualityBook
new_book = record { by_key = []; pending = []; durable = true }

module _ (canonical : Str → Str) (canonical-empty : canonical [] ≡ []) (ratio : ℕ → ℕ → Float64)
    (arrange : List Observation → List Observation)
    (arrange-one : (q : Observation) → arrange (q ∷ []) ≡ q ∷ []) where
  -- A sound row without a root, whose repository has none either, is refused by the reading.
  blank_refused :
      (q : Observation)
      → Row ratio q
      → q.repository_root ≡ []
      → canonical q.repository ≡ []
      → read_rows canonical ratio (q ∷ []) [] ≡ none
  unfolding read_rows accept_row row_root str_eq
  blank_refused q r e n =
      rw (denied-Row canonical ratio q r, normalize-Row ratio q r, e, canonical-empty, n)
        (ground arith)

  read_rows_nothing : read_rows canonical ratio [] [] ≡ some []
  unfolding read_rows
  read_rows_nothing = refl

  stamped_blank :
      (now : ℕ) (q : Observation)
      → Row ratio q
      → canonical q.repository_root ≡ []
      → canonical q.repository ≡ []
      → stamped canonical ratio arrange now q ≡ record q { repository_root = []; observed_at = now }
  unfolding row_root str_eq
  stamped_blank now q r e n =
      let no_root : row_root canonical ratio q ≡ [] = rw (e, n) refl in
      ap {A = Observation} (λ x. record x { observed_at = now })
        (ap (λ s. normalize (record q { repository_root = s })) no_root
          ∙ normalize-Row ratio (record q { repository_root = [] })
              (relabel-Row ratio q [] q.observed_at r))

  -- For a sample as `Observe` makes it, every count adding up, that `Record` does not pass over: if
  -- neither its root nor the name of its repository has a canonical root, then the file that a new
  -- book writes for it cannot be read again.
  pub record_observation-unreadable :
      (now : ℕ) (q : Observation)
      → Row ratio q
      → unrecorded canonical ratio arrange q ≡ false
      → canonical q.repository_root ≡ []
      → canonical q.repository ≡ []
      → read_rows canonical ratio
          (record_observation canonical ratio arrange now no_trouble q new_book []).1
          []
        ≡ none
  unfolding record_observation persist write_back merge_pending put_key at_key merge_quality
      row_root str_eq
  record_observation-unreadable now q r u e n =
      let p : Observation = record q { repository_root = []; observed_at = now } in
      let sound = relabel-Row ratio q [] now r in
      rw
        (
          u,
          read_rows_nothing,
          stamped_blank now q r e n,
          normalize-Row ratio p sound,
          normalize-Row ratio p sound,
          arrange-one p,
        )
        (blank_refused p sound refl n)
