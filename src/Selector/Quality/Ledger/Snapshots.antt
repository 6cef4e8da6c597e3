-- ===== src/Selector/Quality/Ledger/Snapshots.antt =====
-- internal/selector/quality.go: `Snapshot` and `SnapshotVersion`, which read the book. A table is
-- read in the order of its entries, which stands for any order in which Go visits a map.
use mathlib.Core.Path.{subst}
use atenea.Prelude.Str.{Str, str_eq}
use atenea.Prelude.{
  ◌==◌, ◌≡◌, refl, sym, ap, ◌∙◌, ◌⊎◌, inl, inr, Bool, true, false, ltb, ◌&&◌, ◌||◌, [], ◌∷◌, Option,
  none, some, if◌then◌else◌, arith, In, Bool-cases, &&-eq-true,
}
use atenea.Selector.Quality.{Observation}
use atenea.Selector.Quality.Ledger.{Key, Table, QualityBook, holds_key, at_key}

abbrev pub better : Observation → Observation → Bool
better q best =
    ltb best.samples q.samples
    || ((q.samples == best.samples) && ltb best.observed_at q.observed_at)

abbrev pub beats : Observation → Option Observation → Bool
beats q none = true
beats q (some best) = better q best

-- The loop of `Snapshot` over the entries whose key is asked for.
unfoldable pub best_row : (Key → Bool) → Table → Option Observation → Option Observation
best_row asked [] best = best
best_row asked ((k, q) ∷ t) best =
    best_row asked t (if asked k && beats q best then some q else best)

module _ (canonical : Str → Str) where
  abbrev pub asked_for : Str → Str → Str → Str → Key → Bool
  asked_for capability repository implementation language k =
      str_eq k.capability capability
      && (str_eq k.repository (canonical repository)
          && (str_eq k.implementation implementation
              && (str_eq language [] || str_eq k.language language)))

  unfoldable pub snapshot : Str → Str → Str → Str → QualityBook → Option Observation
  snapshot capability repository implementation language b =
      best_row (asked_for capability repository implementation language) b.by_key none

  unfoldable pub snapshot_version :
      Str → Str → Str → Str → Str → Str → Str → QualityBook → Option Observation
  snapshot_version capability repository implementation language version instance_id digest b =
      let k : Key = record {
        capability = capability;
        repository = canonical repository;
        implementation = implementation;
        language = language;
        version = version;
        instance_id = instance_id;
        config_digest = digest;
      } in
      if holds_key k b.by_key then some (at_key k b.by_key) else none

-- What the loop returns: where it comes from, and that nothing asked for beats it.
abbrev Best : (Key → Bool) → Table → Option Observation → Observation → Type 0
Best asked t best q =
    ((best ≡ some q) ⊎ ((k : Key) × (In (k, q) t × (asked k ≡ true))))
    × ((c : Observation) → best ≡ some c → better c q ≡ false)
    × ((k : Key) (r : Observation) → In (k, r) t → asked k ≡ true → better r q ≡ false)

better_trans : (a b c : Observation) → better a b ≡ false → better b c ≡ false → better a c ≡ false
better_trans a b c h g = ground arith

better_loses : (a b c : Observation) → better b a ≡ true → better b c ≡ false → better a c ≡ false
better_loses a b c h g = ground arith

better_self : (c q : Observation) → some c ≡ some q → better c q ≡ false
better_self c q e = ground (arith, e)

-- What was beaten, or not beaten, by the row `q` before.
beaten :
    (q r : Observation) (best : Option Observation) (c : Observation)
    → beats q best ≡ true
    → better q r ≡ false
    → best ≡ some c
    → better c r ≡ false
beaten q r none c b h e = absurd (cc)
beaten q r (some d) c b h e = ground (arith, e, better_loses d q r b h)

unbeaten :
    (q r : Observation) (best : Option Observation)
    → beats q best ≡ false
    → ((c : Observation) → best ≡ some c → better c r ≡ false)
    → better q r ≡ false
unbeaten q r none b h = absurd (cc)
unbeaten q r (some d) b h = better_trans q d r b (h d refl)

abbrev next_best : (Key → Bool) → Key → Observation → Option Observation → Option Observation
next_best asked k q best = if asked k && beats q best then some q else best

taken-Best :
    (asked : Key → Bool) (k : Key) (p : Observation) (t : Table) (best : Option Observation)
    (q : Observation)
    → asked k ≡ true
    → beats p best ≡ true
    → Best asked t (some p) q
    → Best asked ((k, p) ∷ t) best q
taken-Best asked k p t best q a b (from, over, rest) = (
  elim from [ inl e ↦ inr (k, (inl (cc), a)) | inr (j, (m, y)) ↦ inr (j, (inr m, y)) ],
  λ c e. beaten p q best c b (over p refl) e,
  λ j r m y. elim m [
    | inl e ↦ subst (λ x. better x q ≡ false) (sym (ap (λ x. x.1) e)) (over p refl)
    | inr m' ↦ rest j r m' y
  ],
)

passed-Best :
    (asked : Key → Bool) (k : Key) (p : Observation) (t : Table) (best : Option Observation)
    (q : Observation)
    → (asked k && beats p best) ≡ false
    → Best asked t best q
    → Best asked ((k, p) ∷ t) best q
passed-Best asked k p t best q b (from, over, rest) = (
  elim from [ inl e ↦ inl e | inr (j, (m, y)) ↦ inr (j, (inr m, y)) ],
  over,
  λ j r m y. elim m [
    | inl e ↦
        let here : asked k ≡ true = subst (λ x. asked x ≡ true) (ap (λ x. x.0) e) y in
        subst (λ x. better x q ≡ false) (sym (ap (λ x. x.1) e))
          (unbeaten p q best (ground (arith, b, here)) over)
    | inr m' ↦ rest j r m' y
  ],
)

best_row-Best :
    (asked : Key → Bool) (t : Table) (best : Option Observation) (q : Observation)
    → best_row asked t best ≡ some q
    → Best asked t best q
unfolding best_row
best_row-Best asked [] best q h = (inl h, λ c e. better_self c q (sym e ∙ h), λ j r m y. absurd m)
best_row-Best asked ((k, p) ∷ t) best q h = elim (Bool-cases (asked k && beats p best)) [
  | inl e ↦
      let (a, b) = &&-eq-true _ _ e in
      taken-Best asked k p t best q a b (
        best_row-Best asked t (some p) q
          (subst (λ c. best_row asked t (if c then some p else best) ≡ some q) e h))
  | inr e ↦ passed-Best asked k p t best q e (
      best_row-Best asked t best q
        (subst (λ c. best_row asked t (if c then some p else best) ≡ some q) e h))
]

not-asked :
    (asked : Key → Bool) (k : Key) (p : Observation) (best : Option Observation)
    → (asked k && beats p best) ≡ false
    → best ≡ none
    → asked k ≡ false
not-asked asked k p none b e = ground (arith, b)
not-asked asked k p (some c) b e = absurd (cc)

best_row-nothing :
    (asked : Key → Bool) (t : Table) (best : Option Observation)
    → best_row asked t best ≡ none
    → (best ≡ none) × ((k : Key) (r : Observation) → In (k, r) t → asked k ≡ false)
unfolding best_row
best_row-nothing asked [] best h = (h, λ k r m. absurd m)
best_row-nothing asked ((k, p) ∷ t) best h = elim (Bool-cases (asked k && beats p best)) [
  | inl e ↦
      let (full, rest) =
        best_row-nothing asked t (some p)
          (subst (λ c. best_row asked t (if c then some p else best) ≡ none) e h) in
      absurd (cc full)
  | inr e ↦
      let (empty, rest) =
        best_row-nothing asked t best
          (subst (λ c. best_row asked t (if c then some p else best) ≡ none) e h) in
      (
        empty,
        λ j r m. elim m [
          | inl same ↦
              subst (λ x. asked x ≡ false) (sym (ap (λ x. x.0) same))
                (not-asked asked k p best e empty)
          | inr m' ↦ rest j r m'
        ],
      )
]

-- What is asked of an answer: a row of the table under a key asked for, which no such row beats; or
-- nothing, where there is no such row.
abbrev pub IsBest : (Key → Bool) → Table → Option Observation → Type 0
IsBest asked t none = (k : Key) (r : Observation) → In (k, r) t → asked k ≡ false
IsBest asked t (some q) =
    ((k : Key) × (In (k, q) t × (asked k ≡ true)))
    × ((k : Key) (r : Observation) → In (k, r) t → asked k ≡ true → better r q ≡ false)

best_row-IsBest :
    (asked : Key → Bool) (t : Table) (answer : Option Observation)
    → best_row asked t none ≡ answer
    → IsBest asked t answer
best_row-IsBest asked t none e = (best_row-nothing asked t none e).1
best_row-IsBest asked t (some q) e =
    let (from, over, rest) = best_row-Best asked t none q e in
    (elim from [ inl full ↦ absurd (cc full) | inr found ↦ found ], rest)

-- What `Snapshot` answers is a row of the book under a key that is asked for, and no such row has
-- more samples, nor as many and a later instant, in whatever order the map is visited; and it
-- answers nothing only where the book has no such row.
pub snapshot-IsBest :
    (canonical : Str → Str) (capability repository implementation language : Str) (b : QualityBook)
    → IsBest
        (asked_for canonical capability repository implementation language)
        b.by_key
        (snapshot canonical capability repository implementation language b)
unfolding snapshot
snapshot-IsBest canonical capability repository implementation language b =
    best_row-IsBest _ b.by_key _ refl
