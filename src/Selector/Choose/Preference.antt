-- ===== src/Selector/Choose/Preference.antt =====
-- internal/selector/selector.go: `choose` with a one-call preference, and the rule that applies.
use mathlib.Core.Path.{subst}
use native.Mathlib.Nat.{le_trans}
use atenea.Prelude.Str.{Str, str_eq, str_eq_iff, str_eq_refl}
use atenea.Prelude.{
  ℕ, ◌≤◌, ◌≡◌, ◌≢◌, refl, sym, ap, ◌∙◌, ◌⊎◌, inl, inr, true, false, List, [], ◌∷◌, none, some,
  arith, if◌then◌else◌, Bool-cases, In, All, any, ltb,
}
use atenea.Contract.Implementation.{Implementation}
use atenea.Selector.Quality.{Observation}
use atenea.Selector.Types.{Request, Rule, Settled, one_call_preference, Notice, preference_skipped}
use atenea.Selector.Choose.{
  choose_by_rule, choose, rule_for, rule_from, better_rule, applies, specificity, is_preferred,
  preferred_survivors,
}
use atenea.Selector.Choose.Total.{Picks, choose_by_rule-Picks, In-keep, keep_none}

list_cases :
    (l : List Implementation)
    → (l ≡ []) ⊎ ((i : Implementation) × (rest : List Implementation) × (l ≡ i ∷ rest))
list_cases [] = inl refl
list_cases (i ∷ rest) = inr (i, rest, refl)

module _ (rules : List Rule) (req : Request) (preferred : Str) (survivors : List Implementation)
    (quality : List (Str × Observation)) (minimum : ℕ) where
  no_preference :
      str_eq preferred [] ≡ true
      → choose rules req preferred survivors quality minimum
        ≡ choose_by_rule rules req survivors quality minimum []
  unfolding choose
  no_preference e = rw (e, choose)

  preference_lost :
      str_eq preferred [] ≡ false
      → preferred_survivors preferred req.candidates survivors ≡ []
      → choose rules req preferred survivors quality minimum
        ≡ choose_by_rule rules req survivors quality minimum (preference_skipped preferred ∷ [])
  unfolding choose
  preference_lost e f = rw (e, choose) (rw f)

  preference_won :
      (i : Implementation) (rest : List Implementation) (chosen : Implementation) (why : Settled)
      (said : List Notice)
      → str_eq preferred [] ≡ false
      → preferred_survivors preferred req.candidates survivors ≡ i ∷ rest
      → choose_by_rule rules req (i ∷ rest) quality minimum [] ≡ some (chosen, why, said)
      → choose rules req preferred survivors quality minimum
        ≡ some (chosen, one_call_preference chosen.id preferred, [])
  unfolding choose
  preference_won i rest chosen why said e f g = rw (e, choose) (rw f (rw g))

module _ (rules : List Rule) (req : Request) (preferred : Str) (quality : List (Str × Observation))
    (minimum : ℕ) (x : Implementation) (xs : List Implementation) where
  -- Among survivors there is always a choice, and it is one of them.
  pub choose-Picks : Picks (x ∷ xs) (choose rules req preferred (x ∷ xs) quality minimum)
  choose-Picks = elim (Bool-cases (str_eq preferred [])) [
    | inl e ↦
        rw (no_preference rules req preferred (x ∷ xs) quality minimum e)
          (choose_by_rule-Picks rules req x xs quality minimum [])
    | inr e ↦ elim (list_cases (preferred_survivors preferred req.candidates (x ∷ xs))) [
      | inl f ↦
          rw (preference_lost rules req preferred (x ∷ xs) quality minimum e f)
            (choose_by_rule-Picks rules req x xs quality minimum _)
      | inr (i, rest, f) ↦
          let (c, why, said, g, at) = choose_by_rule-Picks rules req i rest quality minimum [] in
          (
            c,
            one_call_preference c.id preferred,
            [],
            preference_won rules req preferred (x ∷ xs) quality minimum i rest c why said e f g,
            (In-keep (is_preferred preferred req.candidates) c (x ∷ xs)
                (subst (In c) (sym f) at)).0,
          )
    ]
  ]

-- A one-call preference that is the id of a candidate settles the choice if that candidate
-- survived, whatever the rules, the measurements and the quality say.
pub choose-prefers :
    (rules : List Rule) (req : Request) (quality : List (Str × Observation)) (minimum : ℕ)
    (survivors : List Implementation) (i : Implementation)
    → i.id ≢ []
    → In i survivors
    → any (λ j. str_eq j.id i.id) req.candidates ≡ true
    → (chosen : Implementation) × (choose rules req i.id survivors quality minimum
        ≡ some (chosen, one_call_preference chosen.id i.id, []))
      × (chosen.id ≡ i.id)
      × In chosen survivors
choose-prefers rules req quality minimum survivors i named at known =
    let e : str_eq i.id [] ≡ false = elim (Bool-cases (str_eq i.id [])) [
      | inl e ↦ absurd (named ((str_eq_iff i.id []).0 e))
      | inr e ↦ e
    ] in
    elim (list_cases (preferred_survivors i.id req.candidates survivors)) [
      | inl f ↦ absurd (
          keep_none (is_preferred i.id req.candidates) i survivors at
            (ground (arith, str_eq_refl i.id)) f)
      | inr (j, rest, f) ↦
          let (c, why, said, g, picked) =
            choose_by_rule-Picks rules req j rest quality minimum [] in
          let (here, test) =
            In-keep (is_preferred i.id req.candidates) c survivors (subst (In c) (sym f) picked) in
          (
            c,
            preference_won rules req i.id survivors quality minimum j rest c why said e f g,
            ground (arith, known, test, str_eq_iff c.id i.id),
            here,
          )
    ]

-- A rule that applies, and is at least as specific as every rule of the list that does.
abbrev pub MostSpecific : Str → Str → List Rule → Rule → Type 0
MostSpecific capability repository rules best =
    (applies capability repository best ≡ true)
    × All (λ r. applies capability repository r ≡ true → specificity r ≤ specificity best) rules

-- One turn of the loop, from a rule that applies.
rule_next :
    (capability repository : Str) (best r : Rule)
    → applies capability repository best ≡ true
    → (b : Rule) × ((if applies capability repository r
          then better_rule (some best) r
          else some best)
        ≡ some b)
      × (applies capability repository b ≡ true)
      × (specificity best ≤ specificity b)
      × (applies capability repository r ≡ true → specificity r ≤ specificity b)
      × ((b ≡ best) ⊎ (b ≡ r))
unfolding better_rule
rule_next capability repository best r h = elim (Bool-cases (applies capability repository r)) [
  | inr off ↦ (best, rw off, h, omega arith, (λ on. absurd (cc)), inl refl)
  | inl on ↦ elim (Bool-cases (ltb (specificity best) (specificity r))) [
    | inl more ↦ (r, rw on (rw more), on, ground arith, (λ _. omega arith), inr refl)
    | inr less ↦ (best, rw on (rw less), h, omega arith, (λ _. ground arith), inl refl)
  ]
]

rule_from-some :
    (capability repository : Str) (best : Rule) (rules : List Rule)
    → applies capability repository best ≡ true
    → (found : Rule) × (rule_from capability repository (some best) rules ≡ some found)
      × (specificity best ≤ specificity found)
      × MostSpecific capability repository rules found
      × ((found ≡ best) ⊎ In found rules)
unfolding rule_from
rule_from-some capability repository best [] h = (best, refl, omega arith, (h, tt), inl refl)
rule_from-some capability repository best (r ∷ rest) h =
    let (b, step, ok, le, more, which) = rule_next capability repository best r h in
    let (f, e, le', (ok', all), from) = rule_from-some capability repository b rest ok in
    (
      f,
      ap (λ o. rule_from capability repository o rest) step ∙ e,
      omega arith,
      (ok', ((λ on. le_trans (more on) le'), all)),
      elim from [
        | inr later ↦ inr (inr later)
        | inl same ↦ elim which [ inl old ↦ inl (same ∙ old) | inr new ↦ inr (inl (same ∙ new)) ]
      ],
    )

-- `ruleFor` finds a rule exactly when one applies, and then one of the rules that is at least as
-- specific as every other that applies.
pub rule_for_lem :
    (rules : List Rule) (capability repository : Str)
    → ((rule_for rules capability repository ≡ none)
        × All (λ r. applies capability repository r ≡ false) rules)
      ⊎ ((best : Rule) × (rule_for rules capability repository ≡ some best)
          × In best rules
          × MostSpecific capability repository rules best)
unfolding rule_for rule_from better_rule
rule_for_lem [] capability repository = inl (refl, tt)
rule_for_lem (r ∷ rest) capability repository =
    elim (Bool-cases (applies capability repository r)) [
      | inl on ↦
          let (f, e, le, (ok, all), from) = rule_from-some capability repository r rest on in
          inr (
            f,
            rw on e,
            elim from [ inl same ↦ inl same | inr later ↦ inr later ],
            (ok, ((λ _. le), all)),
          )
      | inr off ↦ elim (rule_for_lem rest capability repository) [
        | inl (e, all) ↦ inl (rw off e, (off, all))
        | inr (f, e, at, (ok, all)) ↦ inr (f, rw off e, inr at, (ok, ((λ on. absurd (cc)), all)))
      ]
    ]
