-- ===== src/Registry/Steps.antt =====
-- internal/registry/registry.go: the catalogs that operations build from an empty one.
use atenea.Prelude.Str.{Str, str_eq_iff}
use atenea.Prelude.{
  ℕ, true, ◌≡◌, refl, inl, inr, Option, none, some, lookup, lookup-insert, lookup-insert-cases,
  arith,
}
use mathlib.Core.Path.{subst}
use atenea.Contract.Implementation.{Implementation, Repository, Health}
use atenea.Contract.Capability.{Capability}
use atenea.Contract.Validate.{validate_capability, validate_implementation, validate_repository}
use atenea.Registry.{
  Registry, Refusal, answered, empty, add_capability, store_capability, store_repository,
  add_implementation, add_repository, store_implementation, bounds_fit, providers,
}
use atenea.Registry.Observed.{
  StateFile, persist_observed, recorded, set_health, observe_health, dated,
}
use atenea.Registry.Index.{Indexed, store-Indexed}

-- What stands under a key is valid and has the key for its id.
abbrev pub CapabilitiesValid : Registry → Type 0
CapabilitiesValid r =
    (id : Str) (c : Capability)
    → lookup id r.capabilities ≡ some c
    → (c.id ≡ id) × (validate_capability c ≡ true)

-- Such an implementation also answers a registered capability, and bounds integer inputs of it.
abbrev pub Fits : Registry → Implementation → Type 0
Fits r i =
    (c : Capability) × (lookup i.capability r.capabilities ≡ some c)
    × (bounds_fit c.inputs i.constraints.max_input ≡ true)

abbrev pub ImplementersValid : Registry → Type 0
ImplementersValid r =
    (id : Str) (i : Implementation)
    → lookup id r.implementers ≡ some i
    → (i.id ≡ id) × (validate_implementation i ≡ true) × Fits r i

abbrev pub RepositoriesValid : Registry → Type 0
RepositoriesValid r =
    (id : Str) (p : Repository)
    → lookup id r.repositories ≡ some p
    → (p.id ≡ id) × (validate_repository p ≡ true)

abbrev pub IsValid : Registry → Type 0
IsValid r = CapabilitiesValid r × ImplementersValid r × RepositoriesValid r × Indexed r

-- A call that registers or observes something, with the catalog before it and after it.
pub data Step (r s : Registry) : Type 0 where
  registers : (c : Capability) → add_capability r c ≡ answered s → Step r s
  implements : (i : Implementation) → add_implementation r i ≡ answered s → Step r s
  mounts : (p : Repository) → add_repository r p ≡ answered s → Step r s
  probes :
      (now : ℕ) (f : StateFile) (p i : Str) (h : Health) (e : Option Refusal)
      → set_health now f r p i h ≡ recorded s e
      → Step r s

-- The catalogs of a running core.
pub data Reachable : Registry → Type 0 where
  fresh : Reachable empty
  after : {r s : Registry} → Reachable r → Step r s → Reachable s

empty-IsValid : IsValid empty
unfolding lookup providers
empty-IsValid = ground arith

store_capability-IsValid :
    (r : Registry) (c : Capability)
    → IsValid r
    → validate_capability c ≡ true
    → lookup c.id r.capabilities ≡ none
    → IsValid (store_capability r c)
unfolding store_capability
store_capability-IsValid r c (vc, vi, vr, ix) ok new = (
  λ id c' e. grind (arith, lookup-insert c.id id c r.capabilities, str_eq_iff c.id id, vc id c', e),
  λ id i e.
      let (a, b, (d, f, g)) = vi id i e in
      (
        a,
        b,
        (
          d,
          grind (
            arith,
            lookup-insert c.id i.capability c r.capabilities,
            str_eq_iff c.id i.capability,
            f,
          ),
          g,
        ),
      ),
  vr,
  ix,
)

store_implementation-IsValid :
    (r : Registry) (i : Implementation)
    → IsValid r
    → validate_implementation i ≡ true
    → lookup i.id r.implementers ≡ none
    → Fits r i
    → IsValid (store_implementation r i)
unfolding store_implementation
store_implementation-IsValid r i (vc, vi, vr, ix) ok new fit = (
  vc,
  λ id j e. elim (lookup-insert-cases i.id id i j r.implementers e) [
    | inl (a, b) ↦ rw (a, b) (refl, ok, fit)
    | inr (other, f) ↦ vi id j f
  ],
  vr,
  store-Indexed r i ix new,
)

store_repository-IsValid :
    (r : Registry) (p : Repository)
    → IsValid r
    → validate_repository p ≡ true
    → IsValid (store_repository r p)
unfolding store_repository
store_repository-IsValid r p (vc, vi, vr, ix) ok = (
  vc,
  vi,
  λ id q e. grind (arith, lookup-insert p.id id p r.repositories, str_eq_iff p.id id, vr id q, e),
  ix,
)

-- A registration that is answered passed each of its checks.
add_capability-answered :
    (r s : Registry) (c : Capability)
    → add_capability r c ≡ answered s
    → (validate_capability c ≡ true)
      × (lookup c.id r.capabilities ≡ none)
      × (store_capability r c ≡ s)
unfolding add_capability
add_capability-answered r s c e = ground arith

add_implementation-answered :
    (r s : Registry) (i : Implementation)
    → add_implementation r i ≡ answered s
    → (validate_implementation i ≡ true)
      × (lookup i.id r.implementers ≡ none)
      × Fits r i
      × (store_implementation r i ≡ s)
unfolding add_implementation
add_implementation-answered r s i e = ground arith

add_repository-answered :
    (r s : Registry) (p : Repository)
    → add_repository r p ≡ answered s
    → (validate_repository p ≡ true) × (store_repository r p ≡ s)
unfolding add_repository
add_repository-answered r s p e = ground arith

pub set_health-recorded :
    (now : ℕ) (f : StateFile) (r s : Registry) (p i : Str) (h : Health) (e : Option Refusal)
    → set_health now f r p i h ≡ recorded s e
    → (observe_health r p i (dated now h) ≡ s) × (persist_observed f s ≡ e)
unfolding set_health
set_health-recorded now f r s p i h e was = ground arith

Step-IsValid : (r s : Registry) → IsValid r → Step r s → IsValid s
unfolding observe_health
Step-IsValid r s v (registers c e) =
    let (ok, new, p) = add_capability-answered r s c e in
    subst IsValid p (store_capability-IsValid r c v ok new)
Step-IsValid r s v (implements i e) =
    let (ok, new, fit, p) = add_implementation-answered r s i e in
    subst IsValid p (store_implementation-IsValid r i v ok new fit)
Step-IsValid r s v (mounts q e) =
    let (ok, p) = add_repository-answered r s q e in
    subst IsValid p (store_repository-IsValid r q v ok)
Step-IsValid r s v (probes now f q i h err e) =
    let (p, w) = set_health-recorded now f r s q i h err e in subst IsValid p v

-- In every catalog that registrations and probes build from the empty one: each capability,
-- implementation and repository stands under its own id and passes its validation, each
-- implementation answers a registered capability and bounds integer inputs of it only, and the
-- index lists under each capability the ids of its implementations and no other id.
pub Reachable-IsValid : (r : Registry) → Reachable r → IsValid r
Reachable-IsValid r fresh = empty-IsValid
Reachable-IsValid s (after {r} p step) = Step-IsValid r s (Reachable-IsValid r p) step
