-- ===== src/Selector/Quality/Ledger/Merge.antt =====
-- internal/selector/quality.go: merging pending rows into rows keeps them sound, and loses nothing.
use mathlib.Core.Path.{subst}
use atenea.Prelude.Float.{Float64}
use atenea.Prelude.Str.{Str, str_eq}
use atenea.Prelude.{ℕ, ◌+◌, ◌≡◌, refl, true, false, [], ◌∷◌, arith, All, Bool-cases, inl, inr}
use atenea.Selector.Quality.{Observation}
use atenea.Selector.Quality.Book.{add_up, merge_quality}
use atenea.Selector.Quality.Tally.{IsRatio, normalize-Row, add_up-Row}
use atenea.Selector.Quality.Ledger.{
  Key, key_eq, Table, zero_observation, holds_key, at_key, put_key, row_root, merge_pending,
}
use atenea.Selector.Quality.Ledger.Weights.{
  share, weigh, key_eq-eq, weigh-put_key, weigh-unheld, at_key-unheld,
}
use atenea.Selector.Quality.Ledger.Sound.{
  one, GoodRow, Entry, Single, at_key-Entry, put_key-All, one-GoodRow,
}

abbrev pub counted : Observation → ℕ
counted q = q.total

module _ (canonical : Str → Str) (ratio : ℕ → ℕ → Float64) (h : IsRatio ratio) where
  add_up-GoodRow :
      (a b : Observation)
      → GoodRow canonical ratio a
      → GoodRow canonical ratio b
      → GoodRow canonical ratio (add_up ratio a b)
  unfolding add_up row_root
  add_up-GoodRow a b g f = record {
    row = add_up-Row ratio a b h g.row f.row;
    root_kept = g.root_kept;
    named = g.named;
  }

  -- What a pending row adds to what a map holds under its key.
  abbrev Adds : Key → Observation → Table → Type 0
  Adds k delta t =
      Entry canonical ratio (k, merge_quality ratio (at_key k t) delta)
      × ((merge_quality ratio (at_key k t) delta).total ≡ (at_key k t).total + delta.total)

  merged_held :
      (k : Key) (delta : Observation) (t : Table)
      → Entry canonical ratio (k, delta)
      → Entry canonical ratio (k, at_key k t)
      → Adds k delta t
  unfolding merge_quality add_up
  merged_held k delta t d (own, g) =
      let named : str_eq (at_key k t).capability [] ≡ false = ground (arith, g.named) in
      rw (normalize-Row ratio delta d.1.row, named)
        ((own, add_up-GoodRow (at_key k t) delta g d.1), refl)

  merged_new :
      (k : Key) (delta : Observation) (t : Table)
      → Entry canonical ratio (k, delta)
      → at_key k t ≡ zero_observation
      → Adds k delta t
  unfolding merge_quality str_eq
  merged_new k delta t d e = rw (e, normalize-Row ratio delta d.1.row) (d, omega arith)

  merged :
      (k : Key) (delta : Observation) (t : Table)
      → Entry canonical ratio (k, delta)
      → All (Entry canonical ratio) t
      → Adds k delta t
  merged k delta t d a = elim (Bool-cases (holds_key k t)) [
    | inl e ↦ merged_held k delta t d (at_key-Entry canonical ratio k t a e)
    | inr e ↦ merged_new k delta t d (at_key-unheld k t e)
  ]

  -- A row put at its key leaves one row for each key.
  pub put_key-Single :
      (k : Key) (q : Observation) (t : Table)
      → Entry canonical ratio (k, q)
      → All (Entry canonical ratio) t
      → Single canonical ratio t
      → Single canonical ratio (put_key k q t)
  put_key-Single k q t d a s j =
      let e = weigh-put_key one j k q t refl in
      let new = one-GoodRow canonical ratio q d.1 in
      let absent : holds_key k t ≡ false → key_eq k j ≡ true → weigh one j t ≡ 0 = λ out same.
        subst (λ i. weigh one i t ≡ 0) (key_eq-eq k j same) (weigh-unheld one k t out) in
      elim (Bool-cases (holds_key k t)) [
        | inl held ↦ ground (
          arith,
          e,
          new,
          s j,
          one-GoodRow canonical ratio (at_key k t) (at_key-Entry canonical ratio k t a held).1,
        )
        | inr out ↦ ground (arith, e, new, s j, at_key-unheld k t out, absent out)
      ]

  pub put_merged-counted :
      (k j : Key) (delta : Observation) (t : Table)
      → Entry canonical ratio (j, delta)
      → All (Entry canonical ratio) t
      → weigh counted k (put_key j (merge_quality ratio (at_key j t) delta) t)
        ≡ weigh counted k t + share counted (key_eq j k) delta
  put_merged-counted k j delta t d a = ground (
    arith,
    (merged j delta t d a).1,
    weigh-put_key counted k j (merge_quality ratio (at_key j t) delta) t refl,
  )

  pub merge_pending-Entry :
      (pending disk : Table)
      → All (Entry canonical ratio) pending
      → All (Entry canonical ratio) disk
      → All (Entry canonical ratio) (merge_pending canonical ratio pending disk)
  unfolding merge_pending
  merge_pending-Entry [] disk p a = a
  merge_pending-Entry ((j, delta) ∷ pending) disk p a =
      merge_pending-Entry pending _ p.1
        (put_key-All canonical ratio _ j _ disk (merged j delta disk p.0 a).0 a)

  pub merge_pending-counted :
      (k : Key) (pending disk : Table)
      → All (Entry canonical ratio) pending
      → All (Entry canonical ratio) disk
      → weigh counted k (merge_pending canonical ratio pending disk)
        ≡ weigh counted k disk + weigh counted k pending
  unfolding merge_pending
  merge_pending-counted k [] disk p a = omega arith
  merge_pending-counted k ((j, delta) ∷ pending) disk p a =
      let m = merged j delta disk p.0 a in
      let ih =
        merge_pending-counted k pending _ p.1 (put_key-All canonical ratio _ j _ disk m.0 a) in
      omega (arith, ih, put_merged-counted k j delta disk p.0 a)

  pub merge_pending-Single :
      (pending disk : Table)
      → All (Entry canonical ratio) pending
      → All (Entry canonical ratio) disk
      → Single canonical ratio disk
      → Single canonical ratio (merge_pending canonical ratio pending disk)
  unfolding merge_pending
  merge_pending-Single [] disk p a s = s
  merge_pending-Single ((j, delta) ∷ pending) disk p a s =
      let m = (merged j delta disk p.0 a).0 in
      merge_pending-Single pending _ p.1 (put_key-All canonical ratio _ j _ disk m a)
        (put_key-Single j _ disk m a s)

  -- What `Record` does to the pending rows.
  pub put_merged-Entry :
      (j : Key) (delta : Observation) (t : Table)
      → Entry canonical ratio (j, delta)
      → All (Entry canonical ratio) t
      → All (Entry canonical ratio) (put_key j (merge_quality ratio (at_key j t) delta) t)
  put_merged-Entry j delta t d a = put_key-All canonical ratio _ j _ t (merged j delta t d a).0 a
