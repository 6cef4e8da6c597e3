-- ===== src/Selector/Rank.antt =====
-- internal/selector/selector.go: the order in which the survivors are ranked.
pub mod Cost
pub mod Order
use Prim.Native.Nat.{Ordering, compare}
use atenea.Prelude.Int.{ℤ, ltb_ℤ}
use atenea.Prelude.Float.{float_lt, float_ne}
use atenea.Prelude.Str.{Str, str_eq, str_lt}
use atenea.Prelude.{
  ℕ, suc, ◌+◌, Bool, true, false, not, ◌==◌, ltb, ◌&&◌, ◌||◌, List, [], ◌∷◌, Option, none, some,
  if◌then◌else◌, lookup,
}
use atenea.Contract.Enums.{health_unknown, health_alive, rank, state_eq, health_index}
use atenea.Contract.Implementation.{Implementation, has_measurements, barren, effective, Health}
use atenea.Selector.Quality.{Observation, tested}

abbrev pub break_in_samples : ℕ
break_in_samples = 2

abbrev pub break_in_attempts : ℕ
break_in_attempts = 4

unfoldable pub in_break_in : Implementation → Bool
in_break_in i =
    if barren break_in_attempts i.cost
    then false
    else not (has_measurements break_in_samples i.cost)

unfoldable pub owes_more : Implementation → Implementation → Bool
owes_more a b =
    if not (in_break_in a) && not (in_break_in b)
    then false
    else ltb_ℤ a.cost.samples b.cost.samples

abbrev is_unknown : Implementation → Bool
is_unknown i = state_eq i.health.state health_unknown

unfoldable pub settling_rank : Implementation → Bool → ℕ
settling_rank i measuring =
    if measuring && (is_unknown i && in_break_in i) then rank health_alive else rank i.health.state

abbrev pub score_ne : Health → Health → Bool
score_ne a b = float_ne a.score b.score

unfoldable pub health_settles : Implementation → Implementation → Bool → Bool
health_settles a b measuring =
    if not (settling_rank a measuring == rank a.health.state)
      || not (settling_rank b measuring == rank b.health.state)
    then false
    else if not (state_eq a.health.state b.health.state)
    then true
    else score_ne a.health b.health

unfoldable pub cheaper : Implementation → Implementation → Bool
cheaper a b =
    let x = effective break_in_samples a.cost in
    let y = effective break_in_samples b.cost in
    if ltb_ℤ y.tokens x.tokens || ltb_ℤ y.duration x.duration
    then false
    else ltb_ℤ x.tokens y.tokens || ltb_ℤ x.duration y.duration

-- How many of the candidates beat `i`. The source skips the comparison of a candidate with itself,
-- which `cheaper` answers by false.
unfoldable pub dominated : List Implementation → Implementation → ℕ
dominated [] i = 0
dominated (j ∷ over) i = let rest = dominated over i in if cheaper j i then suc rest else rest

-- An entry of the table of `dominationCounts` over `all`, which is kept by id: the sum over the
-- candidates with this id. Where no two candidates share an id, as in a catalog, it is `dominated` of
-- the one that has it (`count_of_lem`).
unfoldable pub count_of : List Implementation → List Implementation → Str → ℕ
count_of all [] id = 0
count_of all (i ∷ rest) id =
    let n = count_of all rest id in if str_eq i.id id then dominated all i + n else n

-- The sign of a Go comparison function.
abbrev pub by_number : ℕ → ℕ → Ordering → Ordering
by_number m n rest = elim (compare m n) [
  | Ordering.lt ↦ Ordering.lt
  | Ordering.gt ↦ Ordering.gt
  | Ordering.eq ↦ rest
]

-- The first test that passes settles it.
abbrev pub by_tests : Bool → Bool → Ordering → Ordering
by_tests first second rest = if first then Ordering.lt else if second then Ordering.gt else rest

-- `strings.Compare`
unfoldable pub compare_str : Str → Str → Ordering
compare_str s t = by_tests (str_lt s t) (str_lt t s) Ordering.eq

-- The comparisons that `rankWith` makes after health: the turn, the count of dominators, the id.
unfoldable pub rank_tail : Bool → (Implementation → ℕ) → Implementation → Implementation → Ordering
rank_tail measuring counts a b =
    by_tests (measuring && owes_more a b) (measuring && owes_more b a)
      (by_number (counts a) (counts b) (compare_str a.id b.id))

-- `rankWith`: `counts` is the table of `dominationCounts`, read at an implementation.
unfoldable pub rank_with : Bool → (Implementation → ℕ) → Implementation → Implementation → Ordering
rank_with measuring counts a b = by_number (settling_rank a measuring) (settling_rank b measuring) (
    if state_eq a.health.state b.health.state
    then by_tests (float_lt b.health.score a.health.score) (float_lt a.health.score b.health.score)
        (rank_tail measuring counts a b)
    else rank_tail measuring counts a b)

abbrev same_health : Implementation → Implementation → Bool → Bool
same_health a b measuring =
    (settling_rank a measuring == settling_rank b measuring)
    && (state_eq a.health.state b.health.state && not (score_ne a.health b.health))

-- Whether an observation may speak for the requested language.
abbrev pub language_fits : Str → Observation → Bool
language_fits language q = str_eq q.language [] || str_eq q.language language

abbrev pub languages_fit : Str → Observation → Observation → Bool
languages_fit language p q =
    str_eq language [] || (language_fits language p && language_fits language q)

unfoldable pub quality_compare : ℕ → Str → Observation → Observation → Ordering → Ordering
quality_compare minimum language p q rest =
    if languages_fit language p q && (tested p minimum && tested q minimum)
    then by_tests (float_lt q.score p.score) (float_lt p.score q.score) rest
    else rest

unfoldable pub rank_with_quality :
    Bool
    → (Implementation → ℕ)
    → List (Str × Observation)
    → ℕ
    → Str
    → Implementation
    → Implementation
    → Ordering
rank_with_quality measuring counts quality minimum language a b =
    let base = rank_with measuring counts a b in
    if not (same_health a b measuring) then base else elim (lookup a.id quality) [
      | none ↦ base
      | some p ↦ elim (lookup b.id quality) [
        | none ↦ base
        | some q ↦ quality_compare minimum language p q base
      ]
    ]

unfoldable pub quality_settles :
    Implementation → Implementation → List (Str × Observation) → ℕ → Str → Bool
quality_settles a b quality minimum language =
    if not (same_health a b false) then false else elim (lookup a.id quality) [
      | none ↦ false
      | some p ↦ elim (lookup b.id quality) [
        | none ↦ false
        | some q ↦
            languages_fit language p q
            && (tested p minimum && (tested q minimum && float_ne p.score q.score))
      ]
    ]
