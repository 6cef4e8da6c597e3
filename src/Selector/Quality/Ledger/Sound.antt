-- ===== src/Selector/Quality/Ledger/Sound.antt =====
-- internal/selector/quality.go: the rows that books write, and that the file of them is read back.

use atenea.Prelude.Float.{Float64}
use atenea.Prelude.Str.{Str}
use atenea.Prelude.{
  ℕ, ◌+◌, ◌≤◌, ◌==◌, ◌≡◌, refl, sym, ap, ◌∙◌, true, false, List, [], ◌∷◌, some, map, if◌then◌else◌,
  arith, All, if-both,
}
use atenea.Selector.Quality.{Observation}
use atenea.Selector.Quality.Counts.{Counts-validate}
use atenea.Selector.Quality.Tally.{Row, normalize-Row}
use atenea.Selector.Quality.Ledger.{
  Key, key_eq, Table, zero_observation, holds_key, at_key, put_key, row_root, row_key, denied,
  nameless, derived, accept_row, read_rows, rows_of,
}
use atenea.Selector.Quality.Ledger.Weights.{
  key_eq-eq, key_eq_refl, share, weigh, weigh-put_key, at_key-unheld,
}

-- Whether a row counts anything: 1 for each row of a book.
abbrev pub one : Observation → ℕ
one q = if q.total == 0 then 0 else 1

module _ (canonical : Str → Str) (ratio : ℕ → ℕ → Float64) where
  abbrev pub own_key : Observation → Key
  own_key q = row_key canonical ratio q.repository_root q

  pub record GoodRow (q : Observation) : Type 0 where
    pub row : Row ratio q
    pub root_kept : row_root canonical ratio q ≡ q.repository_root
    pub named : nameless canonical ratio q.repository_root q ≡ false

  abbrev pub Entry : Key × Observation → Type 0
  Entry (k, q) = (own_key q ≡ k) × GoodRow q

  abbrev pub keyed : List Observation → Table
  keyed = map (λ q. (own_key q, q))

  pub denied-Row : (q : Observation) → Row ratio q → denied canonical ratio q ≡ false
  denied-Row q r = rw (r.valid_flag, r.validated_flag) (ground arith)

  derived-GoodRow : (q : Observation) → GoodRow q → derived canonical ratio q.repository_root q ≡ q
  derived-GoodRow q g = rw (sym g.row.score_ratio) refl

  accept_row-GoodRow :
      (q : Observation) (out : Table)
      → GoodRow q
      → holds_key (own_key q) out ≡ false
      → accept_row canonical ratio q out ≡ some (put_key (own_key q) q out)
  unfolding accept_row
  accept_row-GoodRow q out g h =
      rw (g.root_kept, Counts-validate q g.row.counts, g.named, h, derived-GoodRow q g) refl

  pub put_key-All :
      (P : Key × Observation → Type 0) (k : Key) (q : Observation) (t : Table)
      → P (k, q)
      → All P t
      → All P (put_key k q t)
  unfolding put_key
  put_key-All P k q [] h a = (h, a)
  put_key-All P k q ((j, p) ∷ t) h a =
      if-both (All P) (key_eq j k) _ _ (λ e. (h, a.1)) (λ e. (a.0, put_key-All P k q t h a.1))

  -- What an entry of the map is under its key.
  pub at_key-Entry :
      (k : Key) (t : Table) → All Entry t → holds_key k t ≡ true → Entry (k, at_key k t)
  unfolding holds_key at_key
  at_key-Entry k [] a h = absurd (cc)
  at_key-Entry k ((j, p) ∷ t) a h =
      if-both (λ q. Entry (k, q)) (key_eq j k) p (at_key k t)
        (λ e. (a.0.0 ∙ key_eq-eq j k e, a.0.1)) (λ e. at_key-Entry k t a.1 (ground (arith, e, h)))

  pub one-GoodRow : (q : Observation) → GoodRow q → one q ≡ 1
  one-GoodRow q g = ground (arith, g.row.counts.some_total)

  -- The rows of a key among entries: at least one where it is held.
  pub held-weigh : (k : Key) (t : Table) → All Entry t → holds_key k t ≡ true → 1 ≤ weigh one k t
  unfolding holds_key
  held-weigh k [] a h = absurd (cc)
  held-weigh k ((j, p) ∷ t) a h = ground (arith, held-weigh k t a.1, one-GoodRow p a.0.1)

  abbrev pub put_all : Table → Table → Table
  put_all [] out = out
  put_all ((k, q) ∷ rows) out = put_all rows (put_key k q out)

  -- No key has two rows.
  abbrev pub Single : Table → Type 0
  Single t = (k : Key) → weigh one k t ≤ 1

  put_new-weigh :
      (w : Observation → ℕ) (k : Key) (q : Observation) (out : Table)
      → w zero_observation ≡ 0
      → holds_key (own_key q) out ≡ false
      → weigh w k (put_key (own_key q) q out) ≡ share w (key_eq (own_key q) k) q + weigh w k out
  put_new-weigh w k q out z h =
      let at = at_key-unheld (own_key q) out h in
      let e = weigh-put_key w k (own_key q) q out z in
      let e' : weigh w k (put_key (own_key q) q out)
            + share w (key_eq (own_key q) k) zero_observation
          ≡ weigh w k out + share w (key_eq (own_key q) k) q =
        rw (sym at) e in
      ground (arith, e', z)

  not-held :
      (q : Observation) (rest out : Table)
      → GoodRow q
      → All Entry out
      → weigh one (own_key q) ((own_key q, q) ∷ rest) + weigh one (own_key q) out ≤ 1
      → holds_key (own_key q) out ≡ false
  not-held q rest out g a h =
      ground (arith, key_eq_refl (own_key q), one-GoodRow q g, held-weigh (own_key q) out a)

  pub read_rows-GoodRow :
      (rows : List Observation) (out : Table)
      → All GoodRow rows
      → All Entry out
      → ((k : Key) → weigh one k (keyed rows) + weigh one k out ≤ 1)
      → read_rows canonical ratio rows out ≡ some (put_all (keyed rows) out)
  unfolding read_rows
  read_rows-GoodRow [] out a e s = refl
  read_rows-GoodRow (q ∷ rows) out a e s =
      let new = not-held q (keyed rows) out a.0 e (s (own_key q)) in
      rw
        (
          denied-Row q a.0.row,
          normalize-Row ratio q a.0.row,
          accept_row-GoodRow q out a.0 new,
          read_rows-GoodRow rows (put_key (own_key q) q out) a.1
              (put_key-All Entry (own_key q) q out (refl, a.0) e)
              (λ k. omega (arith, s k, put_new-weigh one k q out refl new)),
        )
        refl

  -- What is read back holds the rows of the file.
  pub put_all-Entry :
      (rows : List Observation) (out : Table)
      → All GoodRow rows
      → All Entry out
      → All Entry (put_all (keyed rows) out)
  put_all-Entry [] out a e = e
  put_all-Entry (q ∷ rows) out a e =
      put_all-Entry rows _ a.1 (put_key-All Entry (own_key q) q out (refl, a.0) e)

  pub put_all-weigh :
      (w : Observation → ℕ) (k : Key) (rows : List Observation) (out : Table)
      → w zero_observation ≡ 0
      → All GoodRow rows
      → All Entry out
      → ((j : Key) → weigh one j (keyed rows) + weigh one j out ≤ 1)
      → weigh w k (put_all (keyed rows) out) ≡ weigh w k (keyed rows) + weigh w k out
  put_all-weigh w k [] out z a e s = omega arith
  put_all-weigh w k (q ∷ rows) out z a e s =
      let new = not-held q (keyed rows) out a.0 e (s (own_key q)) in
      let ih =
        put_all-weigh w k rows (put_key (own_key q) q out) z a.1
          (put_key-All Entry (own_key q) q out (refl, a.0) e)
          (λ j. omega (arith, s j, put_new-weigh one j q out refl new)) in
      omega (arith, ih, put_new-weigh w k q out z new)

  pub keyed-rows_of : (t : Table) → All Entry t → keyed (rows_of canonical ratio t) ≡ t
  keyed-rows_of [] a = refl
  keyed-rows_of ((k, q) ∷ t) a =
      ap (λ j. (j, q) ∷ keyed (rows_of canonical ratio t)) a.0.0
      ∙ ap (λ rest. (k, q) ∷ rest) (keyed-rows_of t a.1)
