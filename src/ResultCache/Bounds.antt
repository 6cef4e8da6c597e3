-- ===== src/ResultCache/Bounds.antt =====
-- internal/resultcache/cache.go: the invariant of a cache, and that every method keeps it.
use atenea.Prelude.{
  ◌≤◌, ◌<◌, ◌≡◌, sym, ◌∙◌, ap, ◌∷◌, none, some, arith, length, lookup, Distinct, lookup-delete,
  lookup-insert, delete-Distinct, insert-Distinct, length-delete, length-insert_new,
}
use atenea.Prelude.Str.{Str, str_eq_iff, str_eq_refl}
use atenea.ResultCache.Lists.{
  Entry, remove_elem, total, pairs, pairs-remove_elem, length-pairs, total-remove_elem,
  key_of_lookup,
}
use atenea.ResultCache.{Cache, remove_locked, push_front}

-- The map and the list hold the same entries, each under one key, and `bytes` is their size.
pub record Consistent (c : Cache) : Type 0 where
  pub distinct : Distinct (pairs c.lru)
  pub distinct_items : Distinct c.items
  pub agree : (k : Str) → lookup k c.items ≡ lookup k (pairs c.lru)
  pub size : length c.items ≡ length c.lru
  pub counted : c.bytes ≡ total c.lru

pub record IsValid (c : Cache) : Type 0 where
  pub consistent : Consistent c
  pub positive : 0 < c.cfg.max_entries
  pub entries_within : length c.items ≤ c.cfg.max_entries
  pub bytes_within : c.bytes ≤ c.cfg.max_bytes

pub remove_locked-Consistent :
    (e : Entry) (c : Cache)
    → lookup e.key (pairs c.lru) ≡ some e
    → Consistent c
    → Consistent (remove_locked e c)
unfolding remove_locked
remove_locked-Consistent e c h v = record {
  distinct = rw (pairs-remove_elem e.key c.lru) (delete-Distinct e.key (pairs c.lru) v.distinct);
  distinct_items = delete-Distinct e.key c.items v.distinct_items;
  agree = λ k. ground (
    arith,
    lookup-delete e.key k c.items,
    lookup-delete e.key k (pairs c.lru),
    pairs-remove_elem e.key c.lru,
    v.agree k,
  );
  size = ground (
    arith,
    v.size,
    v.agree e.key,
    length-delete e.key c.items e v.distinct_items,
    length-delete e.key (pairs c.lru) e v.distinct h,
    pairs-remove_elem e.key c.lru,
    length-pairs c.lru,
    length-pairs (remove_elem e.key c.lru),
  );
  counted = ground (arith, v.counted, total-remove_elem e.key c.lru e v.distinct h);
}

-- An entry under a key that is not stored yet.
pub push_front-Consistent :
    (e : Entry) (c : Cache)
    → lookup e.key c.items ≡ none
    → Consistent c
    → Consistent (push_front e c)
unfolding push_front lookup
push_front-Consistent e c h v = record {
  distinct = ground (arith, v.agree e.key, v.distinct);
  distinct_items = insert-Distinct e.key e c.items v.distinct_items;
  agree = λ k. ground (arith, lookup-insert e.key k e c.items, v.agree k);
  size = ground (arith, v.size, length-insert_new e.key e c.items h);
  counted = omega (arith, v.counted);
}

-- The element found under the key moves to the front.
pub touch-Consistent :
    (e : Entry) (c : Cache)
    → lookup e.key (pairs c.lru) ≡ some e
    → Consistent c
    → Consistent (record c { lru = e ∷ remove_elem e.key c.lru })
unfolding lookup
touch-Consistent e c h v = record {
  distinct = ground (
    arith,
    str_eq_refl e.key,
    pairs-remove_elem e.key c.lru,
    lookup-delete e.key e.key (pairs c.lru),
    delete-Distinct e.key (pairs c.lru) v.distinct,
  );
  distinct_items = v.distinct_items;
  agree = λ k. ground (
    arith,
    str_eq_iff e.key k,
    pairs-remove_elem e.key c.lru,
    lookup-delete e.key k (pairs c.lru),
    v.agree k,
  );
  size = ground (
    arith,
    v.size,
    length-delete e.key (pairs c.lru) e v.distinct h,
    pairs-remove_elem e.key c.lru,
    length-pairs c.lru,
    length-pairs (remove_elem e.key c.lru),
  );
  counted = ground (arith, v.counted, total-remove_elem e.key c.lru e v.distinct h);
}

-- What the map finds under a key is an element of the list, under that key.
pub found :
    (k : Str) (c : Cache) (e : Entry)
    → Consistent c
    → lookup k c.items ≡ some e
    → (e.key ≡ k) × (lookup e.key (pairs c.lru) ≡ some e)
found k c e v h =
    let at : lookup k (pairs c.lru) ≡ some e = sym (v.agree k) ∙ h in
    let same = key_of_lookup k c.lru e at in (same, ap (λ j. lookup j (pairs c.lru)) same ∙ at)
