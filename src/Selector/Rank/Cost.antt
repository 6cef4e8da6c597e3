-- ===== src/Selector/Rank/Cost.antt =====
-- internal/selector/selector.go: `cheaper` is a strict partial order, and counting dominators turns
-- it into a number that a comparison can sort by.

use mathlib.Core.Path.{subst}
use atenea.Prelude.Str.{Str, str_eq, str_eq_iff, str_eq_refl}
use atenea.Prelude.{
  All, All-In, refl, sym, ◌≤◌, ◌<◌, ◌≡◌, ap, inl, inr, true, false, List, [], ◌∷◌, arith, In,
}
use atenea.Contract.Implementation.{Implementation}
use atenea.Selector.Rank.{cheaper, dominated, count_of}

pub cheaper_irrefl : (a : Implementation) → cheaper a a ≡ false
unfolding cheaper
cheaper_irrefl a = ground arith

pub cheaper_trans :
    (a b c : Implementation) → cheaper a b ≡ true → cheaper b c ≡ true → cheaper a c ≡ true
unfolding cheaper
cheaper_trans a b c p q = ground arith

dominated_mono :
    (a b : Implementation) (over : List Implementation)
    → cheaper a b ≡ true
    → dominated over a ≤ dominated over b
unfolding dominated
dominated_mono a b [] h = omega arith
dominated_mono a b (j ∷ over) h = ground (arith, cheaper_trans j a b, dominated_mono a b over h)

-- A candidate that beats another on cost has strictly fewer dominators, so no ranking by this
-- count puts a beaten candidate first.
pub dominated_lt :
    (a b : Implementation) (over : List Implementation)
    → In a over
    → cheaper a b ≡ true
    → dominated over a < dominated over b
unfolding dominated
dominated_lt a b [] m h = absurd m
dominated_lt a b (j ∷ over) (inl e) h = ground (
  arith,
  ap (λ i. cheaper i a) e,
  ap (λ i. cheaper i b) e,
  cheaper_irrefl a,
  dominated_mono a b over h,
)
dominated_lt a b (j ∷ over) (inr m) h =
    ground (arith, cheaper_trans j a b, dominated_lt a b over m h)

-- No element has this id.
abbrev Without : Str → List Implementation → Type 0
Without id l = All (λ i. str_eq i.id id ≡ false) l

-- No two elements share an id.
abbrev DistinctIds : List Implementation → Type 0
DistinctIds [] = Unit
DistinctIds (i ∷ l) = Without i.id l × DistinctIds l

count_of-Without : (all l : List Implementation) (id : Str) → Without id l → count_of all l id ≡ 0
unfolding count_of
count_of-Without all [] id w = refl
count_of-Without all (j ∷ l) id w = ground (arith, count_of-Without all l id w.1, w.0)

-- Among candidates no two of which share an id, the table of `dominationCounts` has, under the id of
-- each, the number of candidates that beat it.
count_of_lem :
    (all l : List Implementation) (i : Implementation)
    → DistinctIds l
    → In i l
    → count_of all l i.id ≡ dominated all i
unfolding count_of
count_of_lem all [] i d m = absurd m
count_of_lem all (j ∷ l) i d (inl e) =
    subst (λ k. count_of all (j ∷ l) k.id ≡ dominated all k) (sym e)
      (ground (arith, str_eq_refl j.id, count_of-Without all l j.id d.0))
count_of_lem all (j ∷ l) i d (inr m) = ground (
  arith,
  str_eq_iff j.id i.id,
  str_eq_iff i.id j.id,
  All-In (λ k. str_eq k.id j.id ≡ false) l i d.0 m,
  count_of_lem all l i d.1 m,
)
