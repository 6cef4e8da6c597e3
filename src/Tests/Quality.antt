-- ===== src/Tests/Quality.antt =====
-- Two books that record outcomes into one file.

use mathlib.Core.List.Permᴰ
use atenea.Prelude.Int.{leb_ℤ, pos}
use atenea.Prelude.Float.{Float64, float_zero, float_one}
use atenea.Prelude.Str.{Str, codes, str_eq}
use atenea.Prelude.{ℕ, ◌==◌, ◌≡◌, refl, Bool, true, false, List, [], ◌∷◌, some, none, if◌then◌else◌}
use atenea.Contract.Completeness.{Outcome, verdict_ok}
use atenea.Contract.Validate.{bad_score}
use atenea.Contract.Value.{end}
use atenea.Selector.Quality.{Observation}
use atenea.Selector.Quality.Book.{observe, validate_observation}
use atenea.Selector.Quality.Tally.{IsRatio, observe-Row, observe-validate}
use atenea.Selector.Quality.Ledger.{read_rows, no_trouble, at_writing, record_observation}
use atenea.Selector.Quality.Ledger.Blank.{new_book, record_observation-unreadable}
use atenea.Selector.Quality.Ledger.Snapshots.{asked_for, snapshot, IsBest, snapshot-IsBest}
use atenea.Selector.Quality.Ledger.History.{Call, Ledgers, opened, run}

abbrev same_root : Str → Str
same_root s = s

-- 1 for all, and 0 for less.
abbrev all_or_none : ℕ → ℕ → Float64
all_or_none a t = if a == t then float_one else float_zero

all_or_none-fine : (b : Bool) → bad_score (if b then float_one else float_zero) ≡ false
unfolding bad_score
all_or_none-fine true = refl
all_or_none-fine false = refl

all_or_none-IsRatio : IsRatio all_or_none
all_or_none-IsRatio = record {
  at_zero = refl;
  at_one = refl;
  in_range = λ a t h p. all_or_none-fine (a == t);
}

abbrev as_given : List Observation → List Observation
as_given rows = rows

abbrev good : Outcome
good = record { evidence = []; result = some end; verdict = verdict_ok; out_of_scope = pos 0 }

abbrev sample_of : Bool → Observation
sample_of run_err =
    observe 5 (codes "code.search") (codes "site") (codes "ripgrep") [] (codes "14") good run_err

observe-validate_example : validate_observation (sample_of true) ≡ leb_ℤ (pos 0) good.out_of_scope
observe-validate_example =
    observe-validate 5 (codes "code.search") (codes "site") (codes "ripgrep") [] (codes "14") good
      true

-- The second book cannot write.
abbrev calls : List Call
calls =
    record { book = 0; now = 6; trouble = no_trouble; sample = sample_of false }
    ∷ record { book = 1; now = 7; trouble = at_writing; sample = sample_of true }
    ∷ []

abbrev behind_calls : Ledgers
behind_calls =
    run same_root (λ s. refl) all_or_none all_or_none-IsRatio as_given (λ rows. Permᴰ.refl rows)
      opened calls

-- What the first book answers behind the calls.
snapshot-IsBest_example :
    IsBest
      (asked_for same_root (codes "code.search") (codes "site") (codes "ripgrep") [])
      (behind_calls.books 0).by_key
      (snapshot same_root
        (codes "code.search")
        (codes "site")
        (codes "ripgrep")
        []
        (behind_calls.books 0))
snapshot-IsBest_example =
    snapshot-IsBest same_root (codes "code.search") (codes "site") (codes "ripgrep") []
      (behind_calls.books 0)

-- No text has a canonical root.
abbrev no_root : Str → Str
no_root s = []

record_observation-unreadable_example :
    read_rows no_root all_or_none
      (record_observation no_root all_or_none as_given 6 no_trouble (sample_of true) new_book []).1
      []
    ≡ none
unfolding observe str_eq
record_observation-unreadable_example =
    record_observation-unreadable no_root refl all_or_none as_given (λ q. refl) 6 (sample_of true)
      (observe-Row all_or_none 5 (codes "code.search") (codes "site") (codes "ripgrep") []
        (codes "14") good true all_or_none-IsRatio refl refl)
      refl refl refl
