-- ===== src/Selector/Quality/Counts.antt =====
-- internal/selector/quality.go: the rows that `validateQualityObservation` accepts, as equations.
use atenea.Prelude.Int.{pos, leb_ℤ}
use atenea.Prelude.{
  ℕ, ◌+◌, ◌≤◌, ◌<◌, ◌≡◌, Bool, true, false, not, ◌==◌, ltb, leb, ◌&&◌, arith, ==_iff, lt→ltb,
}
use atenea.Contract.Validate.{bad_score}
use atenea.Selector.Quality.{Observation}
use atenea.Selector.Quality.Book.{validate_observation, same_flag}

pub record Counts (q : Observation) : Type 0 where
  pub some_total : 0 < q.total
  pub scope_counted : leb_ℤ (pos 0) q.out_of_scope ≡ true
  pub samples_total : q.samples ≡ q.total
  pub valid_or_failure : q.valid_count + q.failure_count ≡ q.total
  pub complete_or_partial : q.complete_count + q.partial_count ≡ q.valid_count
  pub accepted_complete : q.accepted_count ≤ q.complete_count
  pub truncated_partial : q.truncated_count ≤ q.partial_count
  pub score_fine : bad_score q.score ≡ false
  pub accepted_flag : q.accepted ≡ (q.accepted_count == q.total)
  pub complete_flag : q.complete ≡ (q.complete_count == q.total)
  pub truncated_flag : q.truncated ≡ ltb 0 q.truncated_count

infixl 35 ◌and_also◌
◌and_also◌ : {a b : Bool} → a ≡ true → b ≡ true → (a && b) ≡ true
p and_also q = ground arith

le→leb : (a b : ℕ) → a ≤ b → leb a b ≡ true
le→leb a b h = ground arith

eq→== : (a b : ℕ) → a ≡ b → (a == b) ≡ true
eq→== a b h = (==_iff a b).1 h

same_flag_iff : (a b : Bool) → a ≡ b → same_flag a b ≡ true
same_flag_iff a b h = ground arith

fine : (b : Bool) → b ≡ false → not b ≡ true
fine b h = ground arith

pub Counts-validate : (q : Observation) → Counts q → validate_observation q ≡ true
unfolding validate_observation
Counts-validate q c =
    lt→ltb _ _ c.some_total
    and_also c.scope_counted
    and_also eq→== _ _ c.samples_total
    and_also le→leb _ _ (omega arith)
    and_also le→leb _ _ (omega arith)
    and_also le→leb _ _ (omega arith)
    and_also le→leb _ _ (omega arith)
    and_also le→leb _ _ (omega arith)
    and_also le→leb _ _ (omega arith)
    and_also le→leb _ _ (omega arith)
    and_also le→leb _ _ (omega arith)
    and_also eq→== _ _ c.valid_or_failure
    and_also eq→== _ _ c.complete_or_partial
    and_also le→leb _ _ (omega arith)
    and_also le→leb _ _ c.truncated_partial
    and_also fine _ c.score_fine
    and_also same_flag_iff _ _ c.accepted_flag
    and_also same_flag_iff _ _ c.complete_flag
    and_also same_flag_iff _ _ c.truncated_flag
