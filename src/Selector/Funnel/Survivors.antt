-- ===== src/Selector/Funnel/Survivors.antt =====
-- internal/selector/selector.go: what the three gates let through, against `Eligible`, and that the
-- trace of a stage accounts for every candidate.
use mathlib.Core.List.{Perm, perm_middle}
use mathlib.Core.List.Perm
use mathlib.Core.Path.{subst}
use atenea.Prelude.Int.{ℤ}
use atenea.Prelude.{
  ℕ, ◌≡◌, refl, sym, ap, ◌∙◌, inl, inr, Bool, true, false, ◌&&◌, List, [], ◌∷◌, ◌++◌, Option, none,
  some, map, arith, Bool-cases, Option-cases, keep,
}
use atenea.Prelude.Str.{Str}
use atenea.Contract.Implementation.{Implementation, usable}
use atenea.Selector.Types.{Request, Drop, Stage}
use atenea.Selector.Funnel.{
  ids, constraint_gate, reach_gate, refresh, health_gate, sift, filter_constraints, filter_reach,
  filter_health, eligible,
}

abbrev pub passes {ℓ} : {A : Type ℓ} → Option A → Bool
passes none = true
passes (some a) = false

-- What a stage keeps, prepared.
sift_kept :
    (prepare : Implementation → Implementation) (gate : Implementation → Option Drop)
    (l : List Implementation)
    → (sift prepare gate l).0 ≡ map prepare (keep (λ i. passes (gate (prepare i))) l)
unfolding sift
sift_kept prepare gate [] = refl
sift_kept prepare gate (i ∷ l) = elim (Option-cases (gate (prepare i))) [
  | inl e ↦ rw (e, sift) (ap (◌∷◌ (prepare i)) (sift_kept prepare gate l))
  | inr (d, e) ↦ rw (e, sift) (sift_kept prepare gate l)
]

map_id : (l : List Implementation) → map (λ i. i) l ≡ l
map_id [] = refl
map_id (i ∷ l) = ap (◌∷◌ i) (map_id l)

keep-keep :
    (p q : Implementation → Bool) (l : List Implementation)
    → keep p (keep q l) ≡ keep (λ i. q i && p i) l
keep-keep p q [] = refl
keep-keep p q (i ∷ l) = elim (Bool-cases (q i)) [
  | inl e ↦ elim (Bool-cases (p i)) [
    | inl f ↦ rw e (rw f (ap (◌∷◌ i) (keep-keep p q l)))
    | inr f ↦ rw e (rw f (keep-keep p q l))
  ]
  | inr e ↦ rw e (keep-keep p q l)
]

keep_ext :
    (p q : Implementation → Bool)
    → ((i : Implementation) → p i ≡ q i)
    → (l : List Implementation) → keep p l ≡ keep q l
keep_ext p q h [] = refl
keep_ext p q h (i ∷ l) = rw (h i, keep_ext p q h l)

-- The survivors of the three stages, one after the other.
abbrev pub survivors : ℕ → ℤ → Request → List Implementation → List Implementation
survivors now stale_after req candidates =
    (filter_health now stale_after (filter_reach req (filter_constraints req candidates).0).0).0

gates_eligible :
    (now : ℕ) (stale_after : ℤ) (req : Request) (i : Implementation)
    → ((passes (constraint_gate req i) && passes (reach_gate req i))
        && passes (health_gate (refresh now stale_after i)))
      ≡ passes (eligible now stale_after req i)
unfolding constraint_gate reach_gate health_gate refresh eligible usable
gates_eligible now stale_after req i = ground arith

-- The three stages let through exactly the candidates that `Eligible` accepts, in their order, each
-- with a stale health observation turned into an unknown one.
pub survivors-eligible :
    (now : ℕ) (stale_after : ℤ) (req : Request) (candidates : List Implementation)
    → survivors now stale_after req candidates
      ≡ map
          (refresh now stale_after)
          (keep (λ i. passes (eligible now stale_after req i)) candidates)
unfolding filter_constraints filter_reach filter_health
survivors-eligible now stale_after req candidates =
    let c = λ (i : Implementation). passes (constraint_gate req i) in
    let r = λ (i : Implementation). passes (reach_gate req i) in
    let h = λ (i : Implementation). passes (health_gate (refresh now stale_after i)) in
    let kept : (sift (λ i. i) (constraint_gate req) candidates).0 ≡ keep c candidates =
      sift_kept (λ i. i) (constraint_gate req) candidates ∙ map_id (keep c candidates) in
    let reached : (sift (λ i. i) (reach_gate req)
          (sift (λ i. i) (constraint_gate req) candidates).0).0
        ≡ keep (λ i. c i && r i) candidates =
      sift_kept (λ i. i) (reach_gate req) _
      ∙ (map_id _ ∙ (ap (keep r) kept ∙ keep-keep r c candidates)) in
    sift_kept (refresh now stale_after) health_gate _
    ∙ ap (map (refresh now stale_after)) (
        ap (keep h) reached
        ∙ (keep-keep h (λ i. c i && r i) candidates
            ∙ keep_ext (λ i. (c i && r i) && h i) _ (gates_eligible now stale_after req)
                candidates))

-- The ids that a list of drops names.
abbrev pub dropped_ids : List Drop → List Str
dropped_ids = map (λ d. d.implementation)

-- The trace of a sift: every id goes either into the kept ones or into the drops.
sift-perm :
    (prepare : Implementation → Implementation) (gate : Implementation → Option Drop)
    → ((i : Implementation) → (prepare i).id ≡ i.id)
    → ((i : Implementation) (d : Drop) → gate i ≡ some d → d.implementation ≡ i.id)
    → (l : List Implementation)
    → Perm (ids l) (ids (sift prepare gate l).0 ++ dropped_ids (sift prepare gate l).1)
unfolding sift
sift-perm prepare gate same named [] = Perm.refl []
sift-perm prepare gate same named (i ∷ l) =
    let ih = sift-perm prepare gate same named l in
    elim (Option-cases (gate (prepare i))) [
      | inl e ↦
          rw (e, sift)
            (subst
              (λ k.
                Perm (i.id ∷ ids l)
                  (k ∷ ids (sift prepare gate l).0 ++ dropped_ids (sift prepare gate l).1))
              (sym (same i)) (Perm.cons i.id ih))
      | inr (d, e) ↦
          rw (e, sift)
            (subst
              (λ k.
                Perm (i.id ∷ ids l)
                  (ids (sift prepare gate l).0 ++ (k ∷ dropped_ids (sift prepare gate l).1)))
              (sym (named (prepare i) d e ∙ same i))
              (Perm.trans (Perm.cons i.id ih) (Perm.symm (perm_middle _ _))))
    ]

-- A stage whose trace is complete: it lists what came in, what went on, and each drop by its id.
abbrev pub Accounts : List Implementation → List Implementation × Stage → Type 0
Accounts candidates (kept, stage) =
    (stage.input ≡ ids candidates)
    × (stage.output ≡ ids kept)
    × Perm stage.input (stage.output ++ dropped_ids stage.dropped)

constraint_gate_id :
    (req : Request) (i : Implementation) (d : Drop)
    → constraint_gate req i ≡ some d
    → d.implementation ≡ i.id
unfolding constraint_gate
constraint_gate_id req i d h = ground arith

reach_gate_id :
    (req : Request) (i : Implementation) (d : Drop)
    → reach_gate req i ≡ some d
    → d.implementation ≡ i.id
unfolding reach_gate
reach_gate_id req i d h = ground arith

health_gate_id : (i : Implementation) (d : Drop) → health_gate i ≡ some d → d.implementation ≡ i.id
unfolding health_gate
health_gate_id i d h = ground arith

refresh_id :
    (now : ℕ) (stale_after : ℤ) (i : Implementation) → (refresh now stale_after i).id ≡ i.id
unfolding refresh
refresh_id now stale_after i = ground arith

-- In each of the three stages every candidate is accounted for exactly once: it goes on, or it is
-- dropped under its id.
pub stages-Accounts :
    (now : ℕ) (stale_after : ℤ) (req : Request) (l : List Implementation)
    → Accounts l (filter_constraints req l)
      × Accounts l (filter_reach req l)
      × Accounts l (filter_health now stale_after l)
unfolding filter_constraints filter_reach filter_health
stages-Accounts now stale_after req l = (
  (refl, refl, sift-perm (λ i. i) (constraint_gate req) (λ i. refl) (constraint_gate_id req) l),
  (refl, refl, sift-perm (λ i. i) (reach_gate req) (λ i. refl) (reach_gate_id req) l),
  (
    refl,
    refl,
    sift-perm (refresh now stale_after) health_gate (refresh_id now stale_after) health_gate_id l,
  ),
)
