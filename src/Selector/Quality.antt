-- ===== src/Selector/Quality.antt =====
-- internal/selector/quality.go: observations, how one outcome becomes one, and how they add up.
-- The count of what is out of scope is copied from an outcome, so it is an integer, which may be
-- negative. The other counters are `int`s that start at 0 or 1 and only add, so they are natural
-- numbers here, and a file that has a negative one is not represented. The division of two counts as float64, correctly rounded, is the parameter `ratio`.
pub mod Book
pub mod Counts
pub mod Tally
pub mod Ledger
use atenea.Prelude.Int.{ℤ}
use atenea.Prelude.Float.{Float64}
use atenea.Prelude.Str.{Str}
use atenea.Prelude.{ℕ, Bool, ◌==◌, ltb, leb, ◌&&◌, ◌||◌, if◌then◌else◌}

pub record Observation : Type 0 where
  pub capability : Str
  pub repository : Str
  pub repository_root : Str
  pub implementation : Str
  pub language : Str
  pub tool_version : Str
  pub instance_id : Str
  pub config_digest : Str
  pub samples : ℕ
  pub total : ℕ
  pub valid_count : ℕ
  pub accepted_count : ℕ
  pub complete_count : ℕ
  pub partial_count : ℕ
  pub truncated_count : ℕ
  pub failure_count : ℕ
  pub accepted : Bool
  pub complete : Bool
  pub truncated : Bool
  pub out_of_scope : ℤ
  pub valid_outcome : Bool
  pub validated : Bool
  pub score : Float64
  pub observed_at : ℕ

-- `n`, or 1 if it is 0 and the flag of an older row stands for it.
abbrev pub or_flag : ℕ → Bool → ℕ
or_flag n flag = if (n == 0) && flag then 1 else n

unfoldable pub tested : Observation → ℕ → Bool
tested q min_samples =
    let minimum = if ltb min_samples 1 then 1 else min_samples in
    let total = if q.total == 0 then q.samples else q.total in
    leb minimum total
    && (ltb 0 (or_flag q.complete_count q.complete)
        && (ltb 0 (or_flag q.valid_count q.valid_outcome)
            && (q.validated || (q.valid_outcome || leb minimum q.samples))))
