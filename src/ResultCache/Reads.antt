-- ===== src/ResultCache/Reads.antt =====
-- internal/resultcache/cache.go: `Get`, its expiry, and that it keeps the invariant.
use atenea.Prelude.{
  ℕ, ◌≤◌, ◌≡◌, refl, false, List, [], ◌≢◌, inl, inr, Option, none, some, arith, ltb, if◌then◌else◌,
  lookup, length-delete, lookup-delete, Bool-cases,
}
use atenea.Prelude.Str.{Str, str_eq, str_eq_iff}
use atenea.ResultCache.Lists.{Entry, pairs}
use atenea.ResultCache.{Cache, remove_locked, get_found, get_locked, get}
use atenea.ResultCache.Bounds.{
  Consistent, IsValid, remove_locked-Consistent, touch-Consistent, found,
}

pub remove_locked-IsValid :
    (e : Entry) (c : Cache)
    → lookup e.key (pairs c.lru) ≡ some e
    → IsValid c
    → IsValid (remove_locked e c)
unfolding remove_locked
remove_locked-IsValid e c h v = record {
  consistent = remove_locked-Consistent e c h v.consistent;
  positive = v.positive;
  entries_within = ground (
    arith,
    v.entries_within,
    length-delete e.key c.items e v.consistent.distinct_items,
    v.consistent.agree e.key,
  );
  bytes_within = omega (arith, v.bytes_within);
}

get_found-IsValid :
    (now : ℕ) (c : Cache) (k : Str) (o : Option Entry)
    → lookup k c.items ≡ o
    → IsValid c
    → IsValid (get_found now c o).0
unfolding get_found
get_found-IsValid now c k none h v = v
get_found-IsValid now c k (some e) h v =
    let (_, at) = found k c e v.consistent h in
    elim (Bool-cases (ltb now e.expires)) [
      | inl fresh ↦
          rw (fresh, get_found)
            (record {
              consistent = touch-Consistent e c at v.consistent;
              positive = v.positive;
              entries_within = v.entries_within;
              bytes_within = v.bytes_within;
            })
      | inr stale ↦ rw (stale, get_found) (remove_locked-IsValid e c at v)
    ]

-- A read keeps the invariant, whether it hits, misses or drops an expired entry.
pub get-IsValid : (now : ℕ) (key : Str) (c : Cache) → IsValid c → IsValid (get now key c).0
unfolding get get_locked
get-IsValid now key c v = elim (Bool-cases (str_eq key [])) [
  | inl empty ↦ rw (empty, get) v
  | inr named ↦
      rw (named, get, get_locked) (get_found-IsValid now c key (lookup key c.items) refl v)
]

-- What a read should return: the stored value, if it has not expired.
unfoldable pub stored : ℕ → Str → Cache → Option (List ℕ)
stored now key c = elim (lookup key c.items) [
  | none ↦ none
  | some e ↦ if ltb now e.expires then some e.value else none
]

get_found-stored :
    (now : ℕ) (c : Cache) (o : Option Entry)
    → (get_found now c o).1
      ≡ elim o [ none ↦ none | some e ↦ if ltb now e.expires then some e.value else none ]
unfolding get_found
get_found-stored now c none = refl
get_found-stored now c (some e) = ground arith

stored_after_found :
    (now t : ℕ) (j : Str) (c : Cache) (k : Str) (o : Option Entry)
    → lookup k c.items ≡ o
    → Consistent c
    → now ≤ t
    → stored t j (get_found now c o).0 ≡ stored t j c
unfolding get_found stored remove_locked
stored_after_found now t j c k none h v le = refl
stored_after_found now t j c k (some e) h v le =
    let (same, _) = found k c e v h in
    ground (arith, same, str_eq_iff e.key j, lookup-delete e.key j c.items)

-- On a valid cache `Get` answers with the value stored under the key, if it has not expired, and
-- what it changes (the order, and an expired entry that it drops) is seen by no later read, of
-- this key or any other.
pub get-stored :
    (now : ℕ) (key : Str) (c : Cache)
    → IsValid c
    → key ≢ []
    → ((get now key c).1 ≡ stored now key c)
      × ((t : ℕ) (j : Str) → now ≤ t → stored t j (get now key c).0 ≡ stored t j c)
unfolding get get_locked stored
get-stored now key c v named =
    let test : str_eq key [] ≡ false = elim (Bool-cases (str_eq key [])) [
      | inl e ↦ absurd (named ((str_eq_iff key []).0 e))
      | inr e ↦ e
    ] in
    (
      rw (test, get, get_locked) (get_found-stored now c (lookup key c.items)),
      λ t j le.
          rw (test, get, get_locked)
            (stored_after_found now t j c key (lookup key c.items) refl v.consistent le),
    )
