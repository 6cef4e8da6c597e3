-- ===== src/Selector/Select/Laws.antt =====
-- internal/selector/selector.go: what `Select` decides, and when.
use mathlib.Core.Path.{subst}
use atenea.Prelude.Int.{ℤ}
use atenea.Prelude.Str.{trim_space}
use atenea.Prelude.{
  ℕ, ◌≡◌, ◌≢◌, refl, sym, ap, ◌∙◌, ◌⊎◌, inl, inr, Bool, true, false, List, [], ◌∷◌, Option, none,
  some, map, arith, if◌then◌else◌, Bool-cases, keep, In,
}
use atenea.Contract.Implementation.{Implementation}
use atenea.Selector.Types.{
  Request, Decision, SelectError, Stage, decided, failed, Settled, Notice, all_down, no_candidates,
  none_fits, none_reachable,
}
use atenea.Selector.Funnel.{
  eligible, refresh, filter_constraints, filter_reach, filter_health, sift,
}
use atenea.Selector.Funnel.Survivors.{passes, survivors, survivors-eligible}
use atenea.Selector.Choose.{choose}
use atenea.Selector.Choose.Total.{In-keep}
use atenea.Selector.Choose.Preference.{choose-Picks}
use atenea.Selector.Select.{
  Selector, names_nobody, is_empty, quality_for, decision_of, select_survivors, select,
}

-- A candidate that `Eligible` accepts, as the health stage passes it on.
abbrev pub FromEligible : ℕ → ℤ → Request → Implementation → Type 0
FromEligible now stale_after req chosen =
    (i : Implementation) × In i req.candidates
    × (eligible now stale_after req i ≡ none)
    × (chosen ≡ refresh now stale_after i)

passes→none : {A : Type 0} (o : Option A) → passes o ≡ true → o ≡ none
passes→none none h = refl
passes→none (some a) h = cc

In-map :
    (f : Implementation → Implementation) (c : Implementation) (l : List Implementation)
    → In c (map f l)
    → (i : Implementation) × In i l × (c ≡ f i)
In-map f c [] m = absurd m
In-map f c (j ∷ l) (inl e) = (j, inl refl, e)
In-map f c (j ∷ l) (inr m) = let (i, at, e) = In-map f c l m in (i, inr at, e)

In-map_of :
    (f : Implementation → Implementation) (i : Implementation) (l : List Implementation)
    → In i l
    → In (f i) (map f l)
In-map_of f i [] m = absurd m
In-map_of f i (j ∷ l) (inl e) = inl (ap f e)
In-map_of f i (j ∷ l) (inr m) = inr (In-map_of f i l m)

In-keep_of :
    (p : Implementation → Bool) (i : Implementation) (l : List Implementation)
    → p i ≡ true
    → In i l
    → In i (keep p l)
In-keep_of p i [] h m = absurd m
In-keep_of p i (j ∷ l) h (inl e) = rw (sym (ap p e) ∙ h) (inl e)
In-keep_of p i (j ∷ l) h (inr m) = elim (Bool-cases (p j)) [
  | inl on ↦ rw on (inr (In-keep_of p i l h m))
  | inr off ↦ rw off (In-keep_of p i l h m)
]

In-survivors :
    (now : ℕ) (stale_after : ℤ) (req : Request) (c : Implementation)
    → In c (survivors now stale_after req req.candidates)
    → FromEligible now stale_after req c
In-survivors now stale_after req c m =
    let p = λ (i : Implementation). passes (eligible now stale_after req i) in
    let m' : In c (map (refresh now stale_after) (keep p req.candidates)) =
      subst (In c) (survivors-eligible now stale_after req req.candidates) m in
    let (i, at, e) = In-map (refresh now stale_after) c (keep p req.candidates) m' in
    let (here, ok) = In-keep p i req.candidates at in
    (i, here, passes→none (eligible now stale_after req i) ok, e)

survivors-In :
    (now : ℕ) (stale_after : ℤ) (req : Request) (i : Implementation)
    → In i req.candidates
    → eligible now stale_after req i ≡ none
    → In (refresh now stale_after i) (survivors now stale_after req req.candidates)
survivors-In now stale_after req i m e =
    let p = λ (i : Implementation). passes (eligible now stale_after req i) in
    subst (In (refresh now stale_after i))
      (sym (survivors-eligible now stale_after req req.candidates))
      (In-map_of (refresh now stale_after) i (keep p req.candidates)
        (In-keep_of p i req.candidates (ap passes e) m))

-- A stage makes nothing out of nothing.
constraints_empty :
    (req : Request) (l : List Implementation)
    → is_empty l ≡ true
    → is_empty (filter_constraints req l).0 ≡ true
unfolding filter_constraints sift
constraints_empty req [] h = refl
constraints_empty req (i ∷ l) h = cc

reach_empty :
    (req : Request) (l : List Implementation)
    → is_empty l ≡ true
    → is_empty (filter_reach req l).0 ≡ true
unfolding filter_reach sift
reach_empty req [] h = refl
reach_empty req (i ∷ l) h = cc

health_empty :
    (now : ℕ) (stale_after : ℤ) (l : List Implementation)
    → is_empty l ≡ true
    → is_empty (filter_health now stale_after l).0 ≡ true
unfolding filter_health sift
health_empty now stale_after [] h = refl
health_empty now stale_after (i ∷ l) h = cc

module _ (s : Selector) (now : ℕ) (req : Request) where
  abbrev pub fitting : List Implementation
  fitting = (filter_constraints req req.candidates).0

  abbrev pub within : List Implementation
  within = (filter_reach req fitting).0

  abbrev pub left : List Implementation
  left = survivors now s.health_stale_after req req.candidates

  abbrev pub passed : List Stage
  passed =
      (filter_constraints req req.candidates).1
      ∷ (filter_reach req fitting).1
      ∷ (filter_health now s.health_stale_after within).1
      ∷ []

  select-left :
      names_nobody (trim_space req.prefer) req.candidates ≡ false
      → is_empty left ≡ false
      → select s now req ≡ select_survivors s req left passed
  unfolding select
  select-left known some_left = ground (
    arith,
    constraints_empty req req.candidates,
    reach_empty req fitting,
    health_empty now s.health_stale_after within,
  )

  -- The failure of the first stage that left nobody.
  abbrev pub first_empty : SelectError
  first_empty =
      if is_empty req.candidates
      then no_candidates
      else if is_empty fitting
      then none_fits
      else if is_empty within
      then none_reachable
      else all_down

  select_none_left :
      names_nobody (trim_space req.prefer) req.candidates ≡ false
      → is_empty left ≡ true
      → (stages : List Stage) × (select s now req ≡ failed first_empty stages)
  unfolding select
  select_none_left known nobody = elim (Bool-cases (is_empty req.candidates)) [
    | inl e ↦ ([], ground arith)
    | inr e ↦ elim (Bool-cases (is_empty fitting)) [
      | inl f ↦ ((filter_constraints req req.candidates).1 ∷ [], ground arith)
      | inr f ↦ elim (Bool-cases (is_empty within)) [
        | inl g ↦ (
          (filter_constraints req req.candidates).1 ∷ (filter_reach req fitting).1 ∷ [],
          ground arith,
        )
        | inr g ↦ (passed, ground arith)
      ]
    ]
  ]

  survivors_decided :
      (stages : List Stage) (l : List Implementation) (c : Implementation) (why : Settled)
      (said : List Notice)
      → choose s.rules req (trim_space req.prefer) l (quality_for s req l) s.minimum_samples
        ≡ some (c, why, said)
      → (d : Decision) × (select_survivors s req l stages ≡ decided d) × (d.chosen ≡ c)
  unfolding select_survivors decision_of
  survivors_decided stages l c why said e =
      (decision_of s req l stages c why said, rw (e, select_survivors), refl)

  -- With a preference that names a candidate, or none, `Select` decides exactly when `Eligible`
  -- accepts some candidate. It then picks one of those, with a stale health observation made
  -- unknown; if none is accepted, it fails for the first stage that left nobody.
  pub select_lem :
      names_nobody (trim_space req.prefer) req.candidates ≡ false
      → ((d : Decision) × (select s now req ≡ decided d)
          × FromEligible now s.health_stale_after req d.chosen)
        ⊎ ((stages : List Stage) × (select s now req ≡ failed first_empty stages)
            × ((i : Implementation)
                → In i req.candidates
                → eligible now s.health_stale_after req i ≢ none))
  select_lem known = go left refl
    where
      go :
          (l : List Implementation)
          → left ≡ l
          → ((d : Decision) × (select s now req ≡ decided d)
              × FromEligible now s.health_stale_after req d.chosen)
            ⊎ ((stages : List Stage) × (select s now req ≡ failed first_empty stages)
                × ((i : Implementation)
                    → In i req.candidates
                    → eligible now s.health_stale_after req i ≢ none))
      go [] e =
          let (stages, f) = select_none_left known (ap is_empty e) in
          inr (
            stages,
            f,
            λ i m h.
                subst (In (refresh now s.health_stale_after i)) e
                  (survivors-In now s.health_stale_after req i m h),
          )
      go (x ∷ xs) e =
          let (c, why, said, picked, at) =
            choose-Picks s.rules req (trim_space req.prefer) (quality_for s req (x ∷ xs))
              s.minimum_samples x xs in
          let (d, f, same) = survivors_decided passed (x ∷ xs) c why said picked in
          inl (
            d,
            select-left known (ap is_empty e) ∙ (ap (λ l. select_survivors s req l passed) e ∙ f),
            In-survivors now s.health_stale_after req d.chosen
                (subst (λ k. In k left) (sym same) (subst (In c) (sym e) at)),
          )
