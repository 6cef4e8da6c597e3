-- ===== src/Selector/Choose.antt =====
-- internal/selector/selector.go: `choose`, the standing rules, and the sentence for what settled it.
-- `slices.SortFunc` sorts up to twelve elements by insertion, as `insertion_sort` does; for a
-- comparison that is a strict total order the sorted list is the only one, whatever the algorithm.
pub mod Sort
pub mod Best
pub mod Total
pub mod Preference
use Prim.Native.Nat.{Ordering}
use mathlib.Core.List.{reverse}
use atenea.Prelude.Int.{ℤ, pos}
use atenea.Prelude.Str.{Str, str_eq}
use atenea.Prelude.{
  ℕ, Bool, true, false, not, ◌==◌, ltb, leb, ◌&&◌, ◌||◌, List, [], ◌∷◌, ◌++◌, Option, none, some,
  any, keep, if◌then◌else◌,
}
use atenea.Contract.Enums.{state_eq}
use atenea.Contract.Implementation.{Implementation, has_measurements, barren}
use atenea.Selector.Quality.{Observation}
use atenea.Selector.Types.{
  Rule, Request, Settled, one_call_preference, user_rule, only_survivor, healthiest, best_quality,
  break_in_turn, ranks_on_estimate, cheapest_measured, cheapest_estimated, settled_by_id, Notice,
  preference_skipped, rule_skipped, takes_turn,
}
use atenea.Selector.Rank.{
  break_in_samples, break_in_attempts, owes_more, health_settles, cheaper, dominated,
  rank_with_quality, quality_settles,
}

abbrev pub Compare : Type 0
Compare = Implementation → Implementation → Ordering

abbrev pub is_lt : Ordering → Bool
is_lt Ordering.lt = true
is_lt _ = false

-- Into a sorted part whose last element stands first: past every element that it is less than.
unfoldable pub insert_back : Compare → Implementation → List Implementation → List Implementation
insert_back cmp x [] = x ∷ []
insert_back cmp x (p ∷ ps) =
    let rest = insert_back cmp x ps in if is_lt (cmp x p) then p ∷ rest else x ∷ p ∷ ps

-- The outer loop; `done` is the sorted part, its last element first.
unfoldable pub sort_from : Compare → List Implementation → List Implementation → List Implementation
sort_from cmp done [] = done
sort_from cmp done (x ∷ xs) = sort_from cmp (insert_back cmp x done) xs

unfoldable pub insertion_sort : Compare → List Implementation → List Implementation
insertion_sort cmp l = reverse (sort_from cmp [] l)

-- `rule.specificity()`
abbrev pub specificity : Rule → ℕ
specificity r = if str_eq r.repository [] then 1 else 2

abbrev pub applies : Str → Str → Rule → Bool
applies capability repository r =
    str_eq r.capability capability && (str_eq r.repository [] || str_eq r.repository repository)

-- One turn of the loop of `ruleFor`: `best` is the most specific match so far.
unfoldable pub better_rule : Option Rule → Rule → Option Rule
better_rule none r = some r
better_rule (some best) r = if ltb (specificity best) (specificity r) then some r else some best

unfoldable pub rule_from : Str → Str → Option Rule → List Rule → Option Rule
rule_from capability repository best [] = best
rule_from capability repository best (r ∷ rest) =
    rule_from capability repository
      (if applies capability repository r then better_rule best r else best) rest

unfoldable pub rule_for : List Rule → Str → Str → Option Rule
rule_for rules capability repository = rule_from capability repository none rules

-- `slices.IndexFunc` by id, and the element at that index.
unfoldable pub find_id : Str → List Implementation → Option Implementation
find_id id [] = none
find_id id (i ∷ rest) = if str_eq i.id id then some i else find_id id rest

-- `barrenAmong` and `attemptsOf` on the losers and on the whole ranking.
unfoldable pub barren_among : List Implementation → Str
barren_among [] = []
barren_among (i ∷ rest) = if barren break_in_attempts i.cost then i.id else barren_among rest

unfoldable pub attempts_of : List Implementation → Str → ℤ
attempts_of [] id = pos 0
attempts_of (i ∷ rest) id = if str_eq i.id id then i.cost.attempts else attempts_of rest id

-- `reasonForQuality`
unfoldable pub reason_for :
    List Implementation → Bool → List (Str × Observation) → ℕ → Str → Settled
reason_for (first ∷ second ∷ rest) measuring quality minimum language =
    let spent = barren_among (second ∷ rest) in
    if health_settles first second measuring
    then healthiest
    else if quality_settles first second quality minimum language
    then best_quality
    else if measuring && owes_more first second
    then break_in_turn first.id first.cost.samples
    else if not (str_eq spent [])
    then ranks_on_estimate first.id spent (attempts_of (first ∷ second ∷ rest) spent)
    else if cheaper first second
    then if has_measurements break_in_samples first.cost
        && has_measurements break_in_samples second.cost
      then cheapest_measured
      else cheapest_estimated
    else settled_by_id
reason_for _ measuring quality minimum language = only_survivor

-- The notice of a break-in turn that overtakes another state of health.
unfoldable pub turn_notice : Bool → List Implementation → List Notice
turn_notice measuring (first ∷ second ∷ rest) =
    if measuring
      && (owes_more first second && not (state_eq first.health.state second.health.state))
    then takes_turn first.id second.id second.health.state ∷ []
    else []
turn_notice measuring _ = []

-- The end of `choose`: the first of the ranking. `none` stands for the index out of range on an
-- empty ranking.
unfoldable pub choose_ranked :
    Request
    → List Implementation
    → List (Str × Observation)
    → ℕ
    → List Notice
    → Option (Implementation × Settled × List Notice)
choose_ranked req survivors quality minimum notices =
    let cmp = rank_with_quality req.measuring (dominated survivors) quality minimum req.language in
    let ranked = insertion_sort cmp survivors in
    elim ranked [
      | [] ↦ none
      | first ∷ rest ↦ some (
        first,
        reason_for (first ∷ rest) req.measuring quality minimum req.language,
        notices ++ turn_notice req.measuring (first ∷ rest),
      )
    ]

-- `choose` from the standing rule on: all of it when the request has no preference.
unfoldable pub choose_by_rule :
    List Rule
    → Request
    → List Implementation
    → List (Str × Observation)
    → ℕ
    → List Notice
    → Option (Implementation × Settled × List Notice)
choose_by_rule rules req survivors quality minimum notices =
    elim (rule_for rules req.capability req.repository.id) [
      | none ↦ choose_ranked req survivors quality minimum notices
      | some rule ↦ elim (find_id rule.prefer survivors) [
        | some i ↦ some (i, user_rule rule.prefer, notices)
        | none ↦
            choose_ranked req survivors quality minimum (notices ++ rule_skipped rule.prefer ∷ [])
      ]
    ]

-- The survivors that a preference names: by id, or by provider if no candidate has that id.
abbrev pub is_preferred : Str → List Implementation → Implementation → Bool
is_preferred preferred candidates i =
    let exact = any (λ j. str_eq j.id preferred) candidates in
    str_eq i.id preferred || (not exact && str_eq i.provider preferred)

abbrev pub preferred_survivors :
    Str → List Implementation → List Implementation → List Implementation
preferred_survivors preferred candidates = keep (is_preferred preferred candidates)

-- `choose`; `preferred` is the trimmed preference. The call on the preferred survivors has an empty
-- preference, so it starts at the standing rule.
unfoldable pub choose :
    List Rule
    → Request
    → Str
    → List Implementation
    → List (Str × Observation)
    → ℕ
    → Option (Implementation × Settled × List Notice)
choose rules req preferred survivors quality minimum =
    let by_rule = choose_by_rule rules req in
    if str_eq preferred []
    then by_rule survivors quality minimum []
    else elim (preferred_survivors preferred req.candidates survivors) [
      | [] ↦ by_rule survivors quality minimum (preference_skipped preferred ∷ [])
      | i ∷ rest ↦ elim (by_rule (i ∷ rest) quality minimum []) [
        | none ↦ none
        | some (chosen, _, _) ↦ some (chosen, one_call_preference chosen.id preferred, [])
      ]
    ]
