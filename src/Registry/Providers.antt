-- ===== src/Registry/Providers.antt =====
-- internal/registry/registry.go: what `ImplementationsFor` lists.
use atenea.Prelude.Str.{Str}
use atenea.Prelude.{
  false, ◌≡◌, refl, sym, ap, ◌∙◌, ◌↔◌, ◌⊎◌, inl, inr, List, [], ◌∷◌, some, map, lookup, In, arith,
  Bool-cases,
}
use atenea.Contract.Implementation.{Implementation}
use atenea.Registry.{
  Registry, not_found, answered, refused, known, implementations_for, implementation_at, providers,
}
use atenea.Registry.Steps.{IsValid, Reachable, Reachable-IsValid}

In-map_inv :
    {A B : Type 0} (f : A → B) (b : B) (xs : List A)
    → In b (map f xs)
    → (a : A) × In a xs × (b ≡ f a)
In-map_inv f b [] m = absurd m
In-map_inv f b (x ∷ xs) (inl e) = (x, inl refl, e)
In-map_inv f b (x ∷ xs) (inr m) = let (a, n, e) = In-map_inv f b xs m in (a, inr n, e)

In-map :
    {A B : Type 0} (f : A → B) (b : B) (a : A) (xs : List A) → In a xs → b ≡ f a → In b (map f xs)
In-map f b a [] m e = absurd m
In-map f b a (x ∷ xs) (inl p) e = inl (e ∙ ap f p)
In-map f b a (x ∷ xs) (inr m) e = inr (In-map f b a xs m e)

implementation_at-some :
    (r : Registry) (id : Str) (i : Implementation)
    → lookup id r.implementers ≡ some i
    → implementation_at r id ≡ i
unfolding implementation_at
implementation_at-some r id i e = ground arith

-- The implementations at the indexed ids are those registered for the capability.
In-providers :
    (r : Registry) (c : Str) (i : Implementation)
    → IsValid r
    → In i (map (implementation_at r) (providers c r.by_capability))
      ↔ ((lookup i.id r.implementers ≡ some i) × (i.capability ≡ c))
In-providers r c i (vc, vi, vr, ix) = (
  λ m.
      let (id, n, p) = In-map_inv (implementation_at r) i (providers c r.by_capability) m in
      let (j, e, k) = (ix c id).0 n in
      let q : i ≡ j = p ∙ implementation_at-some r id j e in
      let own = (vi id j e).0 in (cc (q, own, e), cc (q, k)),
  λ (e, k).
      In-map (implementation_at r) i i.id (providers c r.by_capability) ((ix c i.id).1 (i, e, k))
        (sym (implementation_at-some r i.id i e)),
)

-- In every catalog that registrations and probes build from the empty one, and for every
-- capability id: the providers of an unregistered capability are refused as not found, and those
-- of a registered one are exactly the implementations that were registered for it.
pub implementations_for_lem :
    (r : Registry) (c : Str)
    → Reachable r
    → ((known c r.capabilities ≡ false) × (implementations_for r c ≡ refused not_found))
      ⊎ ((is : List Implementation) × (implementations_for r c ≡ answered is)
          × ((i : Implementation)
              → In i is ↔ ((lookup i.id r.implementers ≡ some i) × (i.capability ≡ c))))
unfolding implementations_for
implementations_for_lem r c p = elim (Bool-cases (known c r.capabilities)) [
  | inl h ↦ inr (
    map (implementation_at r) (providers c r.by_capability),
    ground arith,
    λ i. In-providers r c i (Reachable-IsValid r p),
  )
  | inr h ↦ inl (h, ground arith)
]
