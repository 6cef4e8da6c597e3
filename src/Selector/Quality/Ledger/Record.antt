-- ===== src/Selector/Quality/Ledger/Record.antt =====
-- internal/selector/quality.go: `Record`, by any books that share a file.
use mathlib.Core.List.{Permᴰ}
use atenea.Prelude.Float.{Float64}
use atenea.Prelude.Str.{Str, str_eq}
use atenea.Prelude.{
  ℕ, ◌+◌, ◌≡◌, refl, ap, false, List, [], if◌then◌else◌, arith, All, if-both, Bool-cases, inl, inr,
}
use atenea.Selector.Quality.{Observation}
use atenea.Selector.Quality.Book.{normalize, merge_quality}
use atenea.Selector.Quality.Counts.{Counts}
use atenea.Selector.Quality.Tally.{IsRatio, Row, normalize-Row}
use atenea.Selector.Quality.Ledger.{
  Key, key_eq, QualityBook, Trouble, put_key, at_key, row_root, row_key, unrecorded, stamped,
  record_observation,
}
use atenea.Selector.Quality.Ledger.Weights.{share}
use atenea.Selector.Quality.Ledger.Sound.{Entry}
use atenea.Selector.Quality.Ledger.Merge.{counted, put_merged-Entry, put_merged-counted}
use atenea.Selector.Quality.Ledger.Steps.{SoundFile, tally, Tallied, persist-Tallied}

-- A row keeps its counters under another root and another instant.
relabel-Counts :
    (q : Observation) (root : Str) (now : ℕ)
    → Counts q
    → Counts (record q { repository_root = root; observed_at = now })
relabel-Counts q root now c = record {
  some_total = c.some_total;
  scope_counted = c.scope_counted;
  samples_total = c.samples_total;
  valid_or_failure = c.valid_or_failure;
  complete_or_partial = c.complete_or_partial;
  accepted_complete = c.accepted_complete;
  truncated_partial = c.truncated_partial;
  score_fine = c.score_fine;
  accepted_flag = c.accepted_flag;
  complete_flag = c.complete_flag;
  truncated_flag = c.truncated_flag;
}

pub relabel-Row :
    (ratio : ℕ → ℕ → Float64) (q : Observation) (root : Str) (now : ℕ)
    → Row ratio q
    → Row ratio (record q { repository_root = root; observed_at = now })
relabel-Row ratio q root now r = record {
  counts = relabel-Counts q root now r.counts;
  valid_flag = r.valid_flag;
  validated_flag = r.validated_flag;
  score_ratio = r.score_ratio;
}

module _ (canonical : Str → Str)
    (canonical-twice : (s : Str) → canonical (canonical s) ≡ canonical s) (ratio : ℕ → ℕ → Float64)
    (h : IsRatio ratio) (arrange : List Observation → List Observation)
    (arrange-Perm : (rows : List Observation) → Permᴰ (arrange rows) rows) where
  canonical-row_root :
      (q : Observation) → canonical (row_root canonical ratio q) ≡ row_root canonical ratio q
  unfolding row_root
  canonical-row_root q =
      if-both (λ s. canonical s ≡ s) (str_eq (canonical q.repository_root) [])
        (canonical q.repository) (canonical q.repository_root) (λ e. canonical-twice q.repository)
        (λ e. canonical-twice q.repository_root)

  named_root :
      (root other : Str)
      → canonical root ≡ root
      → str_eq root [] ≡ false
      → (if str_eq (canonical root) [] then other else canonical root) ≡ root
  named_root root other e n = rw (e, n) refl

  -- The key under which an observation is recorded.
  abbrev pub key_for : Observation → Key
  key_for q = row_key canonical ratio (row_root canonical ratio q) q

  stamped_lem :
      (now : ℕ) (q : Observation)
      → Row ratio q
      → stamped canonical ratio arrange now q
        ≡ record q { repository_root = row_root canonical ratio q; observed_at = now }
  stamped_lem now q r =
      ap {A = Observation} (λ p. record p { observed_at = now })
        (normalize-Row ratio (record q { repository_root = row_root canonical ratio q })
          (relabel-Row ratio q (row_root canonical ratio q) q.observed_at r))

  relabel-Entry :
      (now : ℕ) (q : Observation)
      → Row ratio q
      → unrecorded canonical ratio arrange q ≡ false
      → str_eq (row_root canonical ratio q) [] ≡ false
      → Entry canonical ratio
          (key_for q, record q { repository_root = row_root canonical ratio q; observed_at = now })
  unfolding row_root
  relabel-Entry now q r u n = (
    refl,
    record {
      row = relabel-Row ratio q (row_root canonical ratio q) now r;
      root_kept =
          named_root (row_root canonical ratio q) (canonical q.repository) (canonical-row_root q) n;
      named = ground (arith, u, n);
    },
  )

  -- What `Record` counts for a key.
  abbrev pub fresh : Key → Observation → ℕ
  fresh k q =
      if unrecorded canonical ratio arrange q then 0 else share counted (key_eq (key_for q) k) q

  pub record_observation-Tallied :
      (now : ℕ) (trouble : Trouble) (q : Observation) (b : QualityBook) (file : List Observation)
      → Row ratio q
      → str_eq (row_root canonical ratio q) [] ≡ false
      → SoundFile canonical ratio file
      → All (Entry canonical ratio) b.pending
      → Tallied canonical ratio
          (record_observation canonical ratio arrange now trouble q b file).0
          (record_observation canonical ratio arrange now trouble q b file).1
          (λ k. tally canonical ratio k b file + fresh k q)
  unfolding record_observation
  record_observation-Tallied now trouble q b file r n f p =
      elim (Bool-cases (unrecorded canonical ratio arrange q)) [
        | inl e ↦ rw e (f, p, λ k. omega arith)
        | inr e ↦
            let d = relabel-Entry now q r e n in
            let delta : Observation = record q {
              repository_root = row_root canonical ratio q;
              observed_at = now;
            } in
            let (f', p', t) =
              persist-Tallied canonical ratio h arrange arrange-Perm trouble
                (record b {
                  by_key =
                      put_key (key_for q)
                        (merge_quality ratio (normalize (at_key (key_for q) b.by_key)) delta)
                        b.by_key;
                  pending =
                      put_key (key_for q) (merge_quality ratio (at_key (key_for q) b.pending) delta)
                        b.pending;
                })
                file f (put_merged-Entry canonical ratio h (key_for q) delta b.pending d p) in
            rw (e, stamped_lem now q r)
              (
                f',
                p',
                λ k. omega (
                  arith,
                  t k,
                  put_merged-counted canonical ratio h k (key_for q) delta b.pending d p,
                ),
              )
      ]
