-- ===== src/ResultCache/Order.antt =====
-- internal/resultcache/cache.go: `Put`. It always returns, keeps the invariant, and drops from the
-- old end of the list exactly what does not fit.
use mathlib.Core.List.{append-nil, append_assoc}
use mathlib.Core.Path.{subst}
use atenea.Prelude.{
  ℕ, zero, suc, ◌≤◌, ◌<◌, ◌≡◌, refl, sym, ap, ◌∙◌, ◌≢◌, inl, inr, true, false, List, [], ◌∷◌, ◌++◌,
  Option, none, some, arith, length, ltb, lookup, lookup-delete, Bool-cases,
}
use atenea.Prelude.Str.{Str, str_eq, str_eq_iff, str_eq_refl}
use atenea.ResultCache.Lists.{Entry, back, front, remove_elem, remove_elem_absent, total, back_lem}
use atenea.ResultCache.{
  Config, Cache, remove_locked, over, remove_back, evict, drop_old, push_front, fresh_entry, put,
}
use atenea.ResultCache.Bounds.{
  Consistent, IsValid, remove_locked-Consistent, push_front-Consistent, found,
}

not_empty : (k : Str) → k ≢ [] → str_eq k [] ≡ false
not_empty k h = elim (Bool-cases (str_eq k [])) [
  | inl e ↦ absurd (h ((str_eq_iff k []).0 e))
  | inr e ↦ e
]

-- The limits, on a list of entries.
abbrev pub Fits : Config → List Entry → Type 0
Fits cfg l = (length l ≤ cfg.max_entries) × (total l ≤ cfg.max_bytes)

-- To keep one more of the dropped entries would break a limit.
abbrev pub Maximal : Config → List Entry → List Entry → Type 0
Maximal cfg kept [] = Unit
Maximal cfg kept (d ∷ ds) = ¬ Fits cfg (kept ++ d ∷ [])

back-front :
    (e : Entry) (l : List Entry)
    → (b : Entry) × (back (e ∷ l) ≡ some b)
      × (front (e ∷ l) ++ b ∷ [] ≡ e ∷ l)
      × (length (front (e ∷ l)) ≡ length l)
unfolding back
back-front e [] = (e, refl, refl, refl)
back-front e (f ∷ l) = let (b, p, q, r) = back-front f l in (b, p, ap (◌∷◌ e) q, ap suc r)

over-Fits : (c : Cache) → Consistent c → over c ≡ true → ¬ Fits c.cfg c.lru
over-Fits c v h f = ground (arith, v.size, v.counted)

Fits-of_over : (c : Cache) → Consistent c → over c ≡ false → Fits c.cfg c.lru
Fits-of_over c v h = ground (arith, v.size, v.counted)

-- What the loop ends in.
abbrev Evicted : Cache → Cache → List Entry → Type 0
Evicted c c' dropped =
    Consistent c'
    × (over c' ≡ false)
    × (c'.cfg ≡ c.cfg)
    × (c.lru ≡ c'.lru ++ dropped)
    × Maximal c.cfg c'.lru dropped

Maximal-snoc :
    (cfg : Config) (kept ds : List Entry) (e : Entry)
    → Maximal cfg kept ds
    → ¬ Fits cfg ((kept ++ ds) ++ e ∷ [])
    → Maximal cfg kept (ds ++ e ∷ [])
Maximal-snoc cfg kept [] e m n = rw append-nil at n
Maximal-snoc cfg kept (d ∷ ds) e m n = m

remove_back_lem : (c : Cache) (b : Entry) → back c.lru ≡ some b → remove_back c ≡ remove_locked b c
unfolding remove_back
remove_back_lem c b h = rw (h, remove_back)

remove_locked-lru :
    (c : Cache) (b : Entry)
    → Consistent c
    → back c.lru ≡ some b
    → Consistent (remove_locked b c)
      × ((remove_locked b c).lru ≡ front c.lru)
      × ((remove_locked b c).cfg ≡ c.cfg)
unfolding remove_locked
remove_locked-lru c b v h =
    let (at, rest) = back_lem c.lru b v.distinct h in
    (remove_locked-Consistent b c at v, rest, refl)

-- The loop ends within one round for each element, at the longest part that fits.
evict_lem :
    (fuel : ℕ) (c : Cache) (l : List Entry)
    → c.lru ≡ l
    → Consistent c
    → length l < fuel
    → (c' : Cache) × (dropped : List Entry) × (evict fuel c ≡ some c') × Evicted c c' dropped
unfolding evict
evict_lem zero c l e v h = absurd (omega arith)
evict_lem (suc fuel) c [] e v h =
    let none_over : over c ≡ false = ground (arith, v.size, v.counted) in
    (c, [], rw none_over, (v, none_over, refl, sym (append-nil c.lru), tt))
evict_lem (suc fuel) c (x ∷ l) e v h = elim (Bool-cases (over c)) [
  | inr fine ↦ (c, [], rw fine, (v, fine, refl, sym (append-nil c.lru), tt))
  | inl full ↦
      let (b, last, split, fewer) = back-front x l in
      let at : back c.lru ≡ some b = ap back e ∙ last in
      let (v1, lru1, cfg1) = remove_locked-lru c b v at in
      let rest : (remove_locked b c).lru ≡ front (x ∷ l) = lru1 ∙ ap front e in
      let (c', ds, run, (v', fine, cfg', lru', most)) =
        evict_lem fuel (remove_locked b c) (front (x ∷ l)) rest v1 (omega (arith, fewer)) in
      let whole : c.lru ≡ (c'.lru ++ ds) ++ b ∷ [] =
        e ∙ sym split ∙ ap (λ m. m ++ b ∷ []) (sym rest ∙ lru') in
      (
        c',
        ds ++ b ∷ [],
        rw full (ap (evict fuel) (remove_back_lem c b at) ∙ run),
        (
          v',
          fine,
          cfg' ∙ cfg1,
          whole ∙ append_assoc c'.lru ds (b ∷ []),
          Maximal-snoc c.cfg c'.lru ds b (subst (λ g. Maximal g c'.lru ds) cfg1 most)
              (subst (λ m. ¬ Fits c.cfg m) whole (over-Fits c v full)),
        ),
      )
]

drop_old-lru :
    (key : Str) (c : Cache) (o : Option Entry)
    → lookup key c.items ≡ o
    → Consistent c
    → Consistent (drop_old o c)
      × (lookup key (drop_old o c).items ≡ none)
      × ((drop_old o c).lru ≡ remove_elem key c.lru)
      × ((drop_old o c).cfg ≡ c.cfg)
unfolding drop_old remove_locked
drop_old-lru key c none h v =
    (v, h, sym (remove_elem_absent key c.lru (sym (v.agree key) ∙ h)), refl)
drop_old-lru key c (some e) h v =
    let (same, at) = found key c e v h in
    (
      remove_locked-Consistent e c at v,
      ground (arith, same, str_eq_refl key, lookup-delete e.key key c.items),
      ap (λ k. remove_elem k c.lru) same,
      refl,
    )

-- The cache before the loop of `Put`.
abbrev grown : ℕ → Str → List ℕ → Cache → Cache
grown now key value c = push_front (fresh_entry now key value c) (drop_old (lookup key c.items) c)

grown_lem :
    (now : ℕ) (key : Str) (value : List ℕ) (c : Cache)
    → Consistent c
    → Consistent (grown now key value c)
      × ((grown now key value c).lru ≡ fresh_entry now key value c ∷ remove_elem key c.lru)
      × ((grown now key value c).cfg ≡ c.cfg)
unfolding push_front
grown_lem now key value c v =
    let (v1, gone, lru1, cfg1) = drop_old-lru key c (lookup key c.items) refl v in
    (
      push_front-Consistent (fresh_entry now key value c) _ gone v1,
      ap (◌∷◌ (fresh_entry now key value c)) lru1,
      cfg1,
    )

put-evict :
    (now : ℕ) (key : Str) (value : List ℕ) (c c' : Cache)
    → key ≢ []
    → length value ≤ c.cfg.max_bytes
    → evict (suc (length (grown now key value c).lru)) (grown now key value c) ≡ some c'
    → put now key value c ≡ some (c', true)
unfolding put
put-evict now key value c c' named small run =
    let named' : str_eq key [] ≡ false = not_empty key named in
    let small' : ltb c.cfg.max_bytes (length value) ≡ false = ground arith in
    rw (named', small') (rw run)

-- `Put` of a named value that is not too large: it returns, the cache stays valid, and the list
-- becomes the new entry followed by the other entries in their order, cut at the longest part
-- that fits both limits.
pub put_lem :
    (now : ℕ) (key : Str) (value : List ℕ) (c : Cache)
    → IsValid c
    → key ≢ []
    → length value ≤ c.cfg.max_bytes
    → (c' : Cache) × (dropped : List Entry) × (put now key value c ≡ some (c', true))
      × IsValid c'
      × (fresh_entry now key value c ∷ remove_elem key c.lru ≡ c'.lru ++ dropped)
      × Maximal c.cfg c'.lru dropped
put_lem now key value c v named small =
    let (v1, lru1, cfg1) = grown_lem now key value c v.consistent in
    let (c', dropped, run, (v', fine, cfg', lru', most)) =
      evict_lem (suc (length (grown now key value c).lru)) (grown now key value c) _ refl v1
        (omega arith) in
    let same : c'.cfg ≡ c.cfg = cfg' ∙ cfg1 in
    let (few, light) = Fits-of_over c' v' fine in
    (
      c',
      dropped,
      put-evict now key value c c' named small run,
      record {
        consistent = v';
        positive = ground (arith, v.positive, same);
        entries_within = ground (arith, few, v'.size);
        bytes_within = ground (arith, light, v'.counted);
      },
      sym lru1 ∙ lru',
      subst (λ g. Maximal g c'.lru dropped) cfg1 most,
    )
