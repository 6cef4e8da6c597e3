-- ===== src/Selector/Quality/Ledger/Steps.antt =====
-- internal/selector/quality.go: what `Record` leaves in the file that books share.
use mathlib.Core.Path.{subst}
use mathlib.Core.List.{Permᴰ}
use atenea.Prelude.Float.{Float64}
use atenea.Prelude.Str.{Str}
use atenea.Prelude.{
  ℕ, ◌+◌, ◌≤◌, ◌≡◌, refl, sym, ap, ◌∙◌, true, not, List, [], ◌∷◌, arith, All, if-both,
}
use atenea.Selector.Quality.{Observation}
use atenea.Selector.Quality.Tally.{IsRatio}
use atenea.Selector.Quality.Ledger.{
  Key, Table, zero_observation, QualityBook, Trouble, no_trouble, at_reading, at_writing,
  merge_pending, rows_of, write_back, persist,
}
use atenea.Selector.Quality.Ledger.Weights.{weigh}
use atenea.Selector.Quality.Ledger.Sound.{
  one, GoodRow, Entry, Single, keyed, put_all, read_rows-GoodRow, put_all-Entry, put_all-weigh,
  keyed-rows_of,
}
use atenea.Selector.Quality.Ledger.Merge.{
  counted, merge_pending-Entry, merge_pending-counted, merge_pending-Single,
}

All-Perm : (P : Observation → Type 0) (l m : List Observation) → Permᴰ l m → All P m → All P l
All-Perm P _ _ Permᴰ.nil a = a
All-Perm P _ _ (Permᴰ.cons e d) a = (subst P (sym e) a.0, All-Perm P _ _ d a.1)
All-Perm P _ _ (Permᴰ.swap e f) a = (subst P (sym e) a.1.0, (subst P (sym f) a.0, a.1.1))
All-Perm P _ _ (Permᴰ.trans d c) a = All-Perm P _ _ d (All-Perm P _ _ c a)

module _ (canonical : Str → Str) (ratio : ℕ → ℕ → Float64) where
  weigh-Perm :
      (w : Observation → ℕ) (k : Key) (l m : List Observation)
      → Permᴰ l m
      → weigh w k (keyed canonical ratio l) ≡ weigh w k (keyed canonical ratio m)
  weigh-Perm w k _ _ Permᴰ.nil = refl
  weigh-Perm w k _ _ (Permᴰ.cons e d) = ground (arith, e, weigh-Perm w k _ _ d)
  weigh-Perm w k _ _ (Permᴰ.swap e f) = rw (e, f) (omega arith)
  weigh-Perm w k _ _ (Permᴰ.trans d c) = weigh-Perm w k _ _ d ∙ weigh-Perm w k _ _ c

  entries-GoodRow :
      (t : Table)
      → All (Entry canonical ratio) t
      → All (GoodRow canonical ratio) (rows_of canonical ratio t)
  entries-GoodRow [] a = tt
  entries-GoodRow ((k, q) ∷ t) a = (a.0.1, entries-GoodRow t a.1)

  -- A file that books write: sound rows, one for each key.
  abbrev pub SoundFile : List Observation → Type 0
  SoundFile file =
      All (GoodRow canonical ratio) file × Single canonical ratio (keyed canonical ratio file)

  -- The calls that stand for the key in the file, and those that wait in the book.
  abbrev pub tally : Key → QualityBook → List Observation → ℕ
  tally k b file = weigh counted k (keyed canonical ratio file) + weigh counted k b.pending

  -- A book and a file that are sound, with a tally of `n` for the key.
  abbrev pub Tallied : QualityBook → List Observation → (Key → ℕ) → Type 0
  Tallied b file n =
      SoundFile file × All (Entry canonical ratio) b.pending × ((k : Key) → tally k b file ≡ n k)

  module _ (h : IsRatio ratio) (arrange : List Observation → List Observation)
      (arrange-Perm : (rows : List Observation) → Permᴰ (arrange rows) rows) where
    -- The file behind a writing of the entries.
    written :
        (t : Table)
        → All (Entry canonical ratio) t
        → Single canonical ratio t
        → SoundFile (arrange (rows_of canonical ratio t))
          × ((k : Key)
              → weigh counted k (keyed canonical ratio (arrange (rows_of canonical ratio t)))
                ≡ weigh counted k t)
    written t a s =
        let rows = rows_of canonical ratio t in
        let same : (w : Observation → ℕ) (k : Key)
            → weigh w k (keyed canonical ratio (arrange rows)) ≡ weigh w k t =
          λ w k.
            weigh-Perm w k _ _ (arrange-Perm rows)
            ∙ ap (λ u. weigh w k u) (keyed-rows_of canonical ratio t a) in
        (
          (
            All-Perm _ _ _ (arrange-Perm rows) (entries-GoodRow t a),
            λ k. subst (λ n. n ≤ 1) (sym (same one k)) (s k),
          ),
          same counted,
        )

    write_back-Tallied :
        (trouble : Trouble) (b : QualityBook) (file : List Observation) (disk : Table)
        → SoundFile file
        → All (Entry canonical ratio) b.pending
        → All (Entry canonical ratio) disk
        → Single canonical ratio disk
        → ((k : Key) → weigh counted k disk ≡ weigh counted k (keyed canonical ratio file))
        → Tallied
            (write_back canonical ratio arrange trouble b file disk).0
            (write_back canonical ratio arrange trouble b file disk).1
            (λ k. tally k b file)
    unfolding write_back
    write_back-Tallied no_trouble b file disk f p a s e =
        let merged = merge_pending canonical ratio b.pending disk in
        let (g, same) =
          written merged (merge_pending-Entry canonical ratio h b.pending disk p a)
            (merge_pending-Single canonical ratio h b.pending disk p a s) in
        (
          g,
          tt,
          λ k.
              omega
                (arith, same k, e k, merge_pending-counted canonical ratio h k b.pending disk p a),
        )
    write_back-Tallied at_reading b file disk f p a s e = (f, p, λ k. refl)
    write_back-Tallied at_writing b file disk f p a s e = (f, p, λ k. refl)

    pub persist-Tallied :
        (trouble : Trouble) (b : QualityBook) (file : List Observation)
        → SoundFile file
        → All (Entry canonical ratio) b.pending
        → Tallied
            (persist canonical ratio arrange trouble b file).0
            (persist canonical ratio arrange trouble b file).1
            (λ k. tally k b file)
    unfolding persist
    persist-Tallied trouble b file f p =
        let disk = put_all canonical ratio (keyed canonical ratio file) [] in
        let back : (w : Observation → ℕ) (k : Key)
            → w zero_observation ≡ 0
            → weigh w k disk ≡ weigh w k (keyed canonical ratio file) =
          λ w k z.
            put_all-weigh canonical ratio w k file [] z f.0 tt (λ j. omega (arith, f.1 j))
            ∙ omega arith in
        rw (read_rows-GoodRow canonical ratio file [] f.0 tt (λ k. omega (arith, f.1 k))) (
          if-both (λ r. Tallied r.0 r.1 (λ k. tally k b file)) (not b.durable) (b, file, true)
            (write_back canonical ratio arrange trouble b file disk) (λ e. (f, p, λ k. refl))
            (λ e.
              write_back-Tallied trouble b file disk f p
                (put_all-Entry canonical ratio file [] f.0 tt)
                (λ k. subst (λ n. n ≤ 1) (sym (back one k refl)) (f.1 k))
                (λ k. back counted k refl)))
