-- ===== src/Selector/Rank/Order.antt =====
-- internal/selector/selector.go: `rankWith` where nobody is owed a break-in turn: a strict order by
-- health, score, dominators and id.

use atenea.Prelude.Int.{ℤ, ◌<ℤ◌, ◌≤ℤ◌}
use atenea.Prelude.Float.{Float64, nan, units, is_nan}
use atenea.Prelude.Str.{Str, str_lt, str_lt_irrefl, str_lt_trans, str_lt_total}
use atenea.Prelude.{ℕ, ◌<◌, ◌≡◌, sym, ap, ◌∙◌, ◌↔◌, ◌⊎◌, inl, inr, Bool, true, false, ◌&&◌, arith}
use atenea.Contract.Enums.{rank, rank_inj}
use atenea.Contract.Implementation.{Implementation}
use atenea.Selector.Rank.{in_break_in, owes_more, settling_rank, compare_str, rank_tail, rank_with}
use atenea.Selector.Choose.{is_lt}

-- The order of the ids.
pub is_lt-compare_str : (s t : Str) → is_lt (compare_str s t) ≡ str_lt s t
unfolding compare_str
is_lt-compare_str s t = ground arith

-- The score, as a number of units; the order below reads only scores that are numbers.
abbrev pub score_units : Float64 → ℤ
score_units nan = ℤ.pos 0
score_units (units x) = x

-- `a` goes before `b`.
abbrev pub Before : (Implementation → ℕ) → Implementation → Implementation → Type 0
Before counts a b =
    (rank a.health.state < rank b.health.state)
    ⊎ ((rank a.health.state ≡ rank b.health.state)
        × ((score_units b.health.score <ℤ score_units a.health.score)
            ⊎ ((score_units b.health.score ≤ℤ score_units a.health.score)
                × ((counts a < counts b) ⊎ ((counts a ≡ counts b) × (str_lt a.id b.id ≡ true))))))

-- Nobody is owed a turn: either nothing is measured, or the implementation is past its break-in.
abbrev pub NoTurn : Bool → Implementation → Type 0
NoTurn measuring i = (measuring && in_break_in i) ≡ false

pub NoTurn-settling_rank :
    (measuring : Bool) (i : Implementation)
    → NoTurn measuring i
    → settling_rank i measuring ≡ rank i.health.state
unfolding settling_rank
NoTurn-settling_rank measuring i h = ground arith

pub NoTurn-owes_more :
    (measuring : Bool) (a b : Implementation)
    → NoTurn measuring a
    → NoTurn measuring b
    → (measuring && owes_more a b) ≡ false
unfolding owes_more
NoTurn-owes_more measuring a b h k = ground arith

tail_lem :
    (measuring : Bool) (counts : Implementation → ℕ) (a b : Implementation)
    → NoTurn measuring a
    → NoTurn measuring b
    → (is_lt (rank_tail measuring counts a b) ≡ true)
      ↔ ((counts a < counts b) ⊎ ((counts a ≡ counts b) × (str_lt a.id b.id ≡ true)))
unfolding rank_tail
tail_lem measuring counts a b h k = ground (
  arith,
  NoTurn-owes_more measuring a b h k,
  NoTurn-owes_more measuring b a k h,
  is_lt-compare_str a.id b.id,
)

-- With scores that are numbers and nobody owed a turn, `rankWith` is the order `Before`.
pub rank_lem :
    (measuring : Bool) (counts : Implementation → ℕ) (a b : Implementation)
    → NoTurn measuring a × (is_nan a.health.score ≡ false)
    → NoTurn measuring b × (is_nan b.health.score ≡ false)
    → (is_lt (rank_with measuring counts a b) ≡ true) ↔ Before counts a b
unfolding rank_with
rank_lem measuring counts a b (h, x) (k, y) = ground (
  arith,
  NoTurn-settling_rank measuring a h,
  NoTurn-settling_rank measuring b k,
  tail_lem measuring counts a b h k,
  rank_inj a.health.state b.health.state,
)

str_lt_asym : (s t : Str) → str_lt s t ≡ true → str_lt t s ≡ true → ⊥
str_lt_asym s t h k = ground (arith, str_lt_trans s t s h k, str_lt_irrefl s)

str_lt_cotrans : (s t u : Str) → str_lt s u ≡ true → (str_lt s t ≡ true) ⊎ (str_lt t u ≡ true)
str_lt_cotrans s t u h = elim (str_lt_total s t) [
  | inl e ↦ inr (ap (λ v. str_lt v u) (sym e) ∙ h)
  | inr (inl lt) ↦ inl lt
  | inr (inr gt) ↦ inr (str_lt_trans t s u gt h)
]

pub Before-asym :
    (counts : Implementation → ℕ) (a b : Implementation) → Before counts a b → Before counts b a → ⊥
Before-asym counts a b h k = ground (arith, str_lt_asym a.id b.id)

pub Before-cotrans :
    (counts : Implementation → ℕ) (a b c : Implementation)
    → Before counts a c
    → Before counts a b ⊎ Before counts b c
Before-cotrans counts a b c h = ground (arith, str_lt_cotrans a.id b.id c.id)
