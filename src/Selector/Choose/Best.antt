-- ===== src/Selector/Choose/Best.antt =====
-- internal/selector/selector.go: what `choose` picks from the ranking.
use mathlib.Core.Path.{subst}
use atenea.Prelude.Int.{◌≤ℤ◌}
use atenea.Prelude.Float.{is_nan}
use atenea.Prelude.Str.{Str}
use atenea.Prelude.{
  ℕ, ◌≡◌, refl, sym, ◌↔◌, inl, inr, Bool, true, false, List, [], ◌∷◌, ◌++◌, some, arith, Bool-cases,
  Option-cases, In, All, lookup,
}
use atenea.Contract.Enums.{rank}
use atenea.Contract.Implementation.{Implementation}
use atenea.Selector.Quality.{Observation, tested}
use atenea.Selector.Types.{Request, Settled, Notice}
use atenea.Selector.Rank.{cheaper, dominated, rank_with, rank_with_quality, quality_compare}
use atenea.Selector.Rank.Cost.{dominated_lt}
use atenea.Selector.Rank.Order.{Before, Before-asym, Before-cotrans, NoTurn, rank_lem, score_units}
use atenea.Selector.Choose.{Compare, is_lt, insertion_sort, choose_ranked, reason_for, turn_notice}
use atenea.Selector.Choose.Sort.{insertion_sort-least}

-- No observation at hand has enough samples to count.
abbrev pub Untested : ℕ → List (Str × Observation) → Type 0
Untested minimum = All (λ e. tested e.1 minimum ≡ false)

Untested-lookup :
    (minimum : ℕ) (k : Str) (q : Observation) (quality : List (Str × Observation))
    → Untested minimum quality
    → lookup k quality ≡ some q
    → tested q minimum ≡ false
unfolding lookup
Untested-lookup minimum k q [] u h = cc
Untested-lookup minimum k q ((j, p) ∷ rest) u h =
    ground (arith, Untested-lookup minimum k q rest u.1)

-- Evidence that is not tested is neutral.
pub rank-Untested :
    (measuring : Bool) (counts : Implementation → ℕ) (quality : List (Str × Observation))
    (minimum : ℕ) (language : Str) (a b : Implementation)
    → Untested minimum quality
    → rank_with_quality measuring counts quality minimum language a b
      ≡ rank_with measuring counts a b
unfolding rank_with_quality quality_compare
rank-Untested measuring counts quality minimum language a b u =
    elim (Option-cases (lookup a.id quality)) [
      | inl e ↦ ground arith
      | inr (p, e) ↦ ground (arith, Untested-lookup minimum a.id p quality u e)
    ]

-- The scores are numbers, and nobody is owed a break-in turn.
abbrev pub Settles : Bool → Implementation → Type 0
Settles measuring i = NoTurn measuring i × (is_nan i.health.score ≡ false)

-- As good as `chosen` on health.
abbrev pub SameHealth : Implementation → Implementation → Type 0
SameHealth s chosen =
    (rank s.health.state ≡ rank chosen.health.state)
    × (score_units chosen.health.score ≤ℤ score_units s.health.score)

not_beaten :
    (survivors : List Implementation) (s chosen : Implementation)
    → In s survivors
    → ¬ Before (dominated survivors) s chosen
    → SameHealth s chosen
    → cheaper s chosen ≡ false
not_beaten survivors s chosen m first same = elim (Bool-cases (cheaper s chosen)) [
  | inl beats ↦
      absurd (first (inr (same.0, inr (same.1, inl (dominated_lt s chosen survivors m beats)))))
  | inr fine ↦ fine
]

All-not_beaten :
    (survivors l : List Implementation) (chosen : Implementation)
    → ((s : Implementation) → In s l → In s survivors)
    → All (λ s. ¬ Before (dominated survivors) s chosen) l
    → All (λ s. SameHealth s chosen → cheaper s chosen ≡ false) l
All-not_beaten survivors [] chosen sub nb = tt
All-not_beaten survivors (s ∷ l) chosen sub nb = (
  not_beaten survivors s chosen (sub s (inl refl)) nb.0,
  All-not_beaten survivors l chosen (λ t m. sub t (inr m)) nb.1,
)

-- `choose_ranked` answers with the first of the ranking.
pub choose_ranked_first :
    (req : Request) (survivors : List Implementation) (quality : List (Str × Observation))
    (minimum : ℕ) (notices : List Notice) (m : Implementation) (rest : List Implementation)
    → insertion_sort
        (rank_with_quality req.measuring (dominated survivors) quality minimum req.language)
        survivors
      ≡ m ∷ rest
    → choose_ranked req survivors quality minimum notices
      ≡ some (
        m,
        reason_for (m ∷ rest) req.measuring quality minimum req.language,
        notices ++ turn_notice req.measuring (m ∷ rest),
      )
unfolding choose_ranked
choose_ranked_first req survivors quality minimum notices m rest e = rw (e, choose_ranked)

-- Where nobody is owed a break-in turn and no quality evidence is tested, `choose` takes from the
-- survivors one that no survivor precedes in the order of health, score, number of dominators and
-- id; so no survivor as healthy as the chosen one is cheaper than it on both axes.
pub choose_ranked-best :
    (req : Request) (x : Implementation) (xs : List Implementation)
    (quality : List (Str × Observation)) (minimum : ℕ) (notices : List Notice)
    → All (Settles req.measuring) (x ∷ xs)
    → Untested minimum quality
    → (chosen : Implementation) × (why : Settled) × (said : List Notice) × (choose_ranked req
          (x ∷ xs)
          quality
          minimum
          notices
        ≡ some (chosen, why, said))
      × In chosen (x ∷ xs)
      × All (λ s. ¬ Before (dominated (x ∷ xs)) s chosen) (x ∷ xs)
      × All (λ s. SameHealth s chosen → cheaper s chosen ≡ false) (x ∷ xs)
choose_ranked-best req x xs quality minimum notices settled untested =
    let counts = dominated (x ∷ xs) in
    let cmp : Compare = rank_with_quality req.measuring counts quality minimum req.language in
    let (m, rest, e, at, first) =
      insertion_sort-least cmp (Settles req.measuring) (Before counts)
        (λ a b p q.
          subst (λ o. (is_lt o ≡ true) ↔ Before counts a b)
            (sym (rank-Untested req.measuring counts quality minimum req.language a b untested))
            (rank_lem req.measuring counts a b p q))
        (Before-asym counts) (Before-cotrans counts) x xs settled in
    (
      m,
      reason_for (m ∷ rest) req.measuring quality minimum req.language,
      notices ++ turn_notice req.measuring (m ∷ rest),
      choose_ranked_first req (x ∷ xs) quality minimum notices m rest e,
      at,
      first,
      All-not_beaten (x ∷ xs) (x ∷ xs) m (λ s h. h) first,
    )
