-- ===== src/Selector/Quality/Ledger/Weights.antt =====
-- internal/selector/quality.go: keys, and what a write at a key does to the sums over the rows of a
-- key.
use atenea.Prelude.Str.{Str, str_eq, str_eq_iff, str_eq_refl}
use atenea.Prelude.{
  ℕ, ◌+◌, ◌≡◌, refl, ap, Bool, true, false, ◌&&◌, [], ◌∷◌, if◌then◌else◌, arith, &&-eq-true,
}
use atenea.Selector.Quality.{Observation}
use atenea.Selector.Quality.Ledger.{
  Key, key_eq, Table, zero_observation, holds_key, at_key, put_key,
}

same_text : (s t : Str) (x : Bool) → (str_eq s t && x) ≡ true → (s ≡ t) × (x ≡ true)
same_text s t x h = let (e, rest) = &&-eq-true _ _ h in ((str_eq_iff s t).0 e, rest)

pub key_eq-eq : (a b : Key) → key_eq a b ≡ true → a ≡ b
unfolding key_eq
key_eq-eq a b h =
    let (c, h) = same_text a.capability b.capability _ h in
    let (r, h) = same_text a.repository b.repository _ h in
    let (i, h) = same_text a.implementation b.implementation _ h in
    let (l, h) = same_text a.language b.language _ h in
    let (v, h) = same_text a.version b.version _ h in
    let (n, h) = same_text a.instance_id b.instance_id _ h in
    let d = (str_eq_iff a.config_digest b.config_digest).0 h in
    λ t. record {
      capability = c t;
      repository = r t;
      implementation = i t;
      language = l t;
      version = v t;
      instance_id = n t;
      config_digest = d t;
    }

pub key_eq_refl : (a : Key) → key_eq a a ≡ true
unfolding key_eq
key_eq_refl a = rw (
  str_eq_refl a.capability,
  str_eq_refl a.repository,
  str_eq_refl a.implementation,
  str_eq_refl a.language,
  str_eq_refl a.version,
  str_eq_refl a.instance_id,
  str_eq_refl a.config_digest,
)

same_share : (i j k : Key) → key_eq i j ≡ true → key_eq i k ≡ key_eq j k
same_share i j k h = ap (λ x. key_eq x k) (key_eq-eq i j h)

module _ (w : Observation → ℕ) where
  abbrev pub share : Bool → Observation → ℕ
  share mine q = if mine then w q else 0

  -- The sum of `w` over the rows of the key.
  abbrev pub weigh : Key → Table → ℕ
  weigh k [] = 0
  weigh k ((j, q) ∷ t) = share (key_eq j k) q + weigh k t

  pub weigh-put_key :
      (k j : Key) (q : Observation) (t : Table)
      → w zero_observation ≡ 0
      → weigh k (put_key j q t) + share (key_eq j k) (at_key j t) ≡ weigh k t + share (key_eq j k) q
  unfolding put_key at_key
  weigh-put_key k j q [] z = ground arith
  weigh-put_key k j q ((i, p) ∷ t) z = ground (arith, weigh-put_key k j q t z, same_share i j k)

  pub weigh-unheld : (k : Key) (t : Table) → holds_key k t ≡ false → weigh k t ≡ 0
  unfolding holds_key
  weigh-unheld k [] h = refl
  weigh-unheld k ((i, p) ∷ t) h = ground (arith, weigh-unheld k t)

pub at_key-unheld : (k : Key) (t : Table) → holds_key k t ≡ false → at_key k t ≡ zero_observation
unfolding holds_key at_key
at_key-unheld k [] h = refl
at_key-unheld k ((i, p) ∷ t) h = ground (arith, at_key-unheld k t)
