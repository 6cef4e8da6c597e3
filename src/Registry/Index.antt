-- ===== src/Registry/Index.antt =====
-- internal/registry/registry.go: the index from a capability to its implementations.
use atenea.Prelude.Str.{Str, str_eq, str_eq_iff}
use atenea.Prelude.{
  ◌≡◌, ◌↔◌, ◌⊎◌, List, [], ◌∷◌, ◌++◌, none, some, if◌then◌else◌, lookup, insert, lookup-insert, In,
  arith,
}
use atenea.Contract.Implementation.{Implementation}
use atenea.Registry.{Registry, insert_id, sort_ids, providers, store_implementation}

In-insert_id : (a x : Str) (ys : List Str) → In a (insert_id x ys) ↔ ((a ≡ x) ⊎ In a ys)
unfolding insert_id
In-insert_id a x [] = (λ m. m, λ m. m)
In-insert_id a x (y ∷ ys) = ground (arith, In-insert_id a x ys)

In-sort_ids : (a : Str) (xs : List Str) → In a (sort_ids xs) ↔ In a xs
unfolding sort_ids
In-sort_ids a [] = (λ m. m, λ m. m)
In-sort_ids a (x ∷ xs) = ground (arith, In-insert_id a x (sort_ids xs), In-sort_ids a xs)

In-append_one : (a x : Str) (xs : List Str) → In a (xs ++ (x ∷ [])) ↔ (In a xs ⊎ (a ≡ x))
In-append_one a x [] = ground arith
In-append_one a x (y ∷ ys) = ground (arith, In-append_one a x ys)

providers-insert :
    (c k : Str) (ids : List Str) (m : List (Str × List Str))
    → providers c (insert k ids m) ≡ (if str_eq k c then ids else providers c m)
unfolding providers
providers-insert c k ids m = ground (arith, lookup-insert k c ids m)

-- The implementation `id` is registered under the capability `c`.
abbrev pub Provides : Registry → Str → Str → Type 0
Provides r c id = (i : Implementation) × (lookup id r.implementers ≡ some i) × (i.capability ≡ c)

-- The index lists the implementations of a capability, and no other id.
abbrev pub Indexed : Registry → Type 0
Indexed r = (c id : Str) → In id (providers c r.by_capability) ↔ Provides r c id

-- An implementation that was there stays, and the only new one is `i`.
Provides-store :
    (r : Registry) (i : Implementation) (c id : Str)
    → lookup i.id r.implementers ≡ none
    → Provides (store_implementation r i) c id
      ↔ (Provides r c id ⊎ ((id ≡ i.id) × (i.capability ≡ c)))
unfolding store_implementation
Provides-store r i c id absent =
    grind (arith, lookup-insert i.id id i r.implementers, str_eq_iff i.id id)

pub store-Indexed :
    (r : Registry) (i : Implementation)
    → Indexed r
    → lookup i.id r.implementers ≡ none
    → Indexed (store_implementation r i)
unfolding store_implementation
store-Indexed r i h absent c id =
    let ids = providers i.capability r.by_capability ++ (i.id ∷ []) in
    grind (
      arith,
      Provides-store r i c id absent,
      In-sort_ids id ids,
      In-append_one id i.id (providers i.capability r.by_capability),
      h c id,
      providers-insert c i.capability (sort_ids ids) r.by_capability,
      str_eq_iff i.capability c,
    )
