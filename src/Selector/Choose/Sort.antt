-- ===== src/Selector/Choose/Sort.antt =====
-- internal/selector/selector.go: the first element of a ranking, for a comparison that is a strict
-- order on the elements.

use mathlib.Core.List.{reverse, reverse-append}
use atenea.Prelude.{
  ◌≡◌, refl, sym, ap, ◌∙◌, ◌↔◌, ◌⊎◌, inl, inr, Bool, true, false, List, [], ◌∷◌, ◌++◌, Bool-cases,
  In, All,
}
use mathlib.Core.Path.{subst}
use atenea.Contract.Implementation.{Implementation}
use atenea.Selector.Choose.{Compare, is_lt, insert_back, sort_from, insertion_sort}

module _ {κ} (Q : Implementation → Type κ) (cmp : Compare) where
  pub All-insert_back :
      (x : Implementation) (l : List Implementation) → Q x → All Q l → All Q (insert_back cmp x l)
  unfolding insert_back
  All-insert_back x [] q h = (q, tt)
  All-insert_back x (p ∷ ps) q h = elim (Bool-cases (is_lt (cmp x p))) [
    | inl lt ↦ rw lt (h.0, All-insert_back x ps q h.1)
    | inr ge ↦ rw ge (q, h)
  ]

  pub insert_back-All :
      (x : Implementation) (l : List Implementation) → All Q (insert_back cmp x l) → Q x × All Q l
  unfolding insert_back
  insert_back-All x [] h = (h.0, tt)
  insert_back-All x (p ∷ ps) h = elim (Bool-cases (is_lt (cmp x p))) [
    | inl lt ↦
        let h' : All Q (p ∷ insert_back cmp x ps) = rw lt at h in
        let (q, rest) = insert_back-All x ps h'.1 in (q, (h'.0, rest))
    | inr ge ↦ let h' : All Q (x ∷ p ∷ ps) = rw ge at h in (h'.0, h'.1)
  ]

module _ (cmp : Compare) (P : Implementation → Type 0)
    (R : Implementation → Implementation → Type 0)
    (lt_iff : (a b : Implementation) → P a → P b → (is_lt (cmp a b) ≡ true) ↔ R a b)
    (asym : (a b : Implementation) → R a b → R b a → ⊥)
    (cotrans : (a b c : Implementation) → R a c → R a b ⊎ R b c) where
  -- Nothing in the list goes before `m`.
  abbrev NotBefore : Implementation → Implementation → Type 0
  NotBefore m y = ¬ R y m

  insert_least :
      (x : Implementation) (ds : List Implementation) (m : Implementation)
      → P x
      → All P (ds ++ m ∷ [])
      → All (NotBefore m) (ds ++ m ∷ [])
      → (ds' : List Implementation) × (m' : Implementation) × (insert_back cmp x (ds ++ m ∷ [])
          ≡ ds' ++ m' ∷ [])
        × ((m' ≡ x) ⊎ (m' ≡ m))
        × NotBefore m' x
        × All (NotBefore m') (ds ++ m ∷ [])
  unfolding insert_back
  insert_least x [] m px ps nb = elim (Bool-cases (is_lt (cmp x m))) [
    | inl lt ↦
        let r = (lt_iff x m px ps.0).0 lt in
        (m ∷ [], x, rw lt, inl refl, (λ s. asym x x s s), ((λ s. asym x m r s), tt))
    | inr ge ↦ (
      x ∷ [],
      m,
      rw ge,
      inr refl,
      (λ s. absurd (true_not_false ((lt_iff x m px ps.0).1 s) ge)),
      nb,
    )
  ]
    where
      true_not_false : {b : Bool} → b ≡ true → b ≡ false → ⊥
      true_not_false h k = cc
  insert_least x (p ∷ ps) m px (pp, pps) (np, nps) = elim (Bool-cases (is_lt (cmp x p))) [
    | inl lt ↦
        let r = (lt_iff x p px pp).0 lt in
        let (ds', m', e, which, nx, nrest) = insert_least x ps m px pps nps in
        (
          p ∷ ds',
          m',
          rw lt (ap (◌∷◌ p) e),
          which,
          nx,
          (
            elim which [
              | inl same ↦ λ s. asym x p r (subst (R p) same s)
              | inr same ↦ λ s. np (subst (R p) same s)
            ],
            nrest,
          ),
        )
    | inr ge ↦ (
      x ∷ p ∷ ps,
      m,
      rw ge,
      inr refl,
      (λ s. elim (cotrans x p m s) [
        | inl xp ↦ absurd (clash ((lt_iff x p px pp).1 xp) ge)
        | inr pm ↦ np pm
      ]),
      (np, nps),
    )
  ]
    where
      clash : {b : Bool} → b ≡ true → b ≡ false → ⊥
      clash h k = cc

  sort_least :
      (xs ds : List Implementation) (m : Implementation)
      → All P xs
      → All P (ds ++ m ∷ [])
      → All (NotBefore m) (ds ++ m ∷ [])
      → (ds' : List Implementation) × (m' : Implementation) × (sort_from cmp (ds ++ m ∷ []) xs
          ≡ ds' ++ m' ∷ [])
        × ((m' ≡ m) ⊎ In m' xs)
        × All (NotBefore m') (ds ++ m ∷ [])
        × All (NotBefore m') xs
  unfolding sort_from
  sort_least [] ds m pxs pds nb = (ds, m, refl, inl refl, nb, tt)
  sort_least (x ∷ xs) ds m (px, pxs) pds nb =
      let (d1, m1, e1, which1, nx, nold) = insert_least x ds m px pds nb in
      let p1 : All P (d1 ++ m1 ∷ []) = subst (All P) e1 (All-insert_back P cmp x _ px pds) in
      let n1 : All (NotBefore m1) (d1 ++ m1 ∷ []) =
        subst (All (NotBefore m1)) e1 (All-insert_back (NotBefore m1) cmp x _ nx nold) in
      let (d2, m2, e2, which2, nb2, nxs) = sort_least xs d1 m1 pxs p1 n1 in
      let (nx2, nold2) =
        insert_back-All (NotBefore m2) cmp x (ds ++ m ∷ [])
          (subst (All (NotBefore m2)) (sym e1) nb2) in
      (
        d2,
        m2,
        ap (λ l. sort_from cmp l xs) e1 ∙ e2,
        elim which2 [
          | inr later ↦ inr (inr later)
          | inl same ↦ elim which1 [ inl new ↦ inr (inl (same ∙ new)) | inr old ↦ inl (same ∙ old) ]
        ],
        nold2,
        (nx2, nxs),
      )

  -- The first of a ranking is one of the ranked, and none of them goes before it.
  pub insertion_sort-least :
      (x : Implementation) (xs : List Implementation)
      → All P (x ∷ xs)
      → (m : Implementation) × (rest : List Implementation) × (insertion_sort cmp (x ∷ xs)
          ≡ m ∷ rest)
        × In m (x ∷ xs)
        × All (NotBefore m) (x ∷ xs)
  unfolding insertion_sort sort_from insert_back
  insertion_sort-least x xs (px, pxs) =
      let (ds, m, e, which, nb, nxs) = sort_least xs [] x pxs (px, tt) ((λ s. asym x x s s), tt) in
      (m, reverse ds, ap reverse e ∙ reverse-append ds (m ∷ []), which, (nb.0, nxs))
