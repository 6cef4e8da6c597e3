-- ===== src/Selector/Choose/Total.antt =====
-- internal/selector/selector.go: `choose` always picks one of the survivors, the preference comes
-- first and the most specific standing rule after it.
use mathlib.Core.Path.{subst}
use mathlib.Core.List.{reverse, reverse-append}
use atenea.Prelude.Str.{Str, str_eq_iff}
use atenea.Prelude.{
  ℕ, ◌≡◌, ◌≢◌, refl, ap, ◌∙◌, inl, inr, Bool, true, List, [], ◌∷◌, ◌++◌, Option, none, some, arith,
  if◌then◌else◌, Bool-cases, Option-cases, In, All, keep,
}
use atenea.Contract.Implementation.{Implementation}
use atenea.Selector.Quality.{Observation}
use atenea.Selector.Types.{Request, Rule, Settled, user_rule, Notice, rule_skipped}
use atenea.Selector.Rank.{dominated, rank_with_quality}
use atenea.Selector.Choose.{
  Compare, is_lt, insert_back, sort_from, insertion_sort, choose_ranked, choose_by_rule, find_id,
  rule_for,
}
use atenea.Selector.Choose.Sort.{All-insert_back}
use atenea.Selector.Choose.Best.{choose_ranked_first}

module _ (Q : Implementation → Type 0) (cmp : Compare) where
  All-sort_from :
      (xs done : List Implementation) → All Q done → All Q xs → All Q (sort_from cmp done xs)
  unfolding sort_from
  All-sort_from [] done d x = d
  All-sort_from (i ∷ xs) done d (q, x) =
      All-sort_from xs (insert_back cmp i done) (All-insert_back Q cmp i done q d) x

-- A list that is not empty ends in some element.
abbrev Ends : List Implementation → Type 0
Ends l = (ds : List Implementation) × (m : Implementation) × (l ≡ ds ++ m ∷ [])

Ends-cons : (i : Implementation) (l : List Implementation) → Ends (i ∷ l)
Ends-cons i [] = ([], i, refl)
Ends-cons i (j ∷ l) = let (ds, m, e) = Ends-cons j l in (i ∷ ds, m, ap (◌∷◌ i) e)

Ends-insert_back :
    (cmp : Compare) (i : Implementation) (l : List Implementation) → Ends (insert_back cmp i l)
unfolding insert_back
Ends-insert_back cmp i [] = ([], i, refl)
Ends-insert_back cmp i (p ∷ ps) = elim (Bool-cases (is_lt (cmp i p))) [
  | inl lt ↦ rw lt (Ends-cons p (insert_back cmp i ps))
  | inr ge ↦ rw ge (Ends-cons i (p ∷ ps))
]

Ends-sort_from :
    (cmp : Compare) (xs done : List Implementation) → Ends done → Ends (sort_from cmp done xs)
unfolding sort_from
Ends-sort_from cmp [] done e = e
Ends-sort_from cmp (i ∷ xs) done e =
    Ends-sort_from cmp xs (insert_back cmp i done) (Ends-insert_back cmp i done)

All-last :
    (Q : Implementation → Type 0) (ds : List Implementation) (m : Implementation)
    → All Q (ds ++ m ∷ [])
    → Q m
All-last Q [] m h = h.0
All-last Q (d ∷ ds) m h = All-last Q ds m h.1

All-self :
    (l : List Implementation)
    → (k : List Implementation) → ((y : Implementation) → In y l → In y k)
    → All (λ y. In y k) l
All-self [] k sub = tt
All-self (x ∷ l) k sub = (sub x (inl refl), All-self l k (λ y m. sub y (inr m)))

sort_step :
    (cmp : Compare) (x : Implementation) (xs : List Implementation)
    → sort_from cmp [] (x ∷ xs) ≡ sort_from cmp (insert_back cmp x []) xs
unfolding sort_from
sort_step cmp x xs = refl

-- A ranking of a list that is not empty starts with one of its elements.
pub insertion_sort-first :
    (cmp : Compare) (x : Implementation) (xs : List Implementation)
    → (m : Implementation) × (rest : List Implementation) × (insertion_sort cmp (x ∷ xs) ≡ m ∷ rest)
      × In m (x ∷ xs)
unfolding insertion_sort
insertion_sort-first cmp x xs =
    let l = x ∷ xs in
    let (ds, m, e) = Ends-sort_from cmp xs (insert_back cmp x []) (Ends-insert_back cmp x []) in
    let all : All (λ y. In y l) (sort_from cmp [] l) =
      All-sort_from (λ y. In y l) cmp l [] tt (All-self l l (λ y h. h)) in
    (
      m,
      reverse ds,
      ap reverse (sort_step cmp x xs ∙ e) ∙ reverse-append ds (m ∷ []),
      All-last (λ y. In y l) ds m (subst (All (λ y. In y l)) (sort_step cmp x xs ∙ e) all),
    )

-- A choice made among the survivors.
abbrev pub Picks : List Implementation → Option (Implementation × Settled × List Notice) → Type 0
Picks survivors r =
    (chosen : Implementation) × (why : Settled) × (said : List Notice) × (r
      ≡ some (chosen, why, said))
    × In chosen survivors

choose_ranked-Picks :
    (req : Request) (x : Implementation) (xs : List Implementation)
    (quality : List (Str × Observation)) (minimum : ℕ) (notices : List Notice)
    → Picks (x ∷ xs) (choose_ranked req (x ∷ xs) quality minimum notices)
choose_ranked-Picks req x xs quality minimum notices =
    let (m, rest, e, at) =
      insertion_sort-first
        (rank_with_quality req.measuring (dominated (x ∷ xs)) quality minimum req.language) x xs in
    (m, _, _, choose_ranked_first req (x ∷ xs) quality minimum notices m rest e, at)

find_id_lem :
    (id : Str) (i : Implementation) (l : List Implementation)
    → find_id id l ≡ some i
    → In i l × (i.id ≡ id)
unfolding find_id
find_id_lem id i [] h = cc
find_id_lem id i (j ∷ l) h = ground (arith, str_eq_iff j.id id, find_id_lem id i l)

-- What the standing rule leads to: its implementation, if that survived, and the ranking if not.
pub by_rule_hit :
    (rules : List Rule) (req : Request) (survivors : List Implementation)
    (quality : List (Str × Observation)) (minimum : ℕ) (notices : List Notice) (rule : Rule)
    (i : Implementation)
    → rule_for rules req.capability req.repository.id ≡ some rule
    → find_id rule.prefer survivors ≡ some i
    → choose_by_rule rules req survivors quality minimum notices
      ≡ some (i, user_rule rule.prefer, notices)
unfolding choose_by_rule
by_rule_hit rules req survivors quality minimum notices rule i e f = ground arith

by_rule_skip :
    (rules : List Rule) (req : Request) (survivors : List Implementation)
    (quality : List (Str × Observation)) (minimum : ℕ) (notices : List Notice) (rule : Rule)
    → rule_for rules req.capability req.repository.id ≡ some rule
    → find_id rule.prefer survivors ≡ none
    → choose_by_rule rules req survivors quality minimum notices
      ≡ choose_ranked req survivors quality minimum (notices ++ rule_skipped rule.prefer ∷ [])
unfolding choose_by_rule
by_rule_skip rules req survivors quality minimum notices rule e f = ground arith

by_rule_none :
    (rules : List Rule) (req : Request) (survivors : List Implementation)
    (quality : List (Str × Observation)) (minimum : ℕ) (notices : List Notice)
    → rule_for rules req.capability req.repository.id ≡ none
    → choose_by_rule rules req survivors quality minimum notices
      ≡ choose_ranked req survivors quality minimum notices
unfolding choose_by_rule
by_rule_none rules req survivors quality minimum notices e = ground arith

pub choose_by_rule-Picks :
    (rules : List Rule) (req : Request) (x : Implementation) (xs : List Implementation)
    (quality : List (Str × Observation)) (minimum : ℕ) (notices : List Notice)
    → Picks (x ∷ xs) (choose_by_rule rules req (x ∷ xs) quality minimum notices)
choose_by_rule-Picks rules req x xs quality minimum notices =
    elim (Option-cases (rule_for rules req.capability req.repository.id)) [
      | inl e ↦
          rw (by_rule_none rules req (x ∷ xs) quality minimum notices e)
            (choose_ranked-Picks req x xs quality minimum notices)
      | inr (rule, e) ↦ elim (Option-cases (find_id rule.prefer (x ∷ xs))) [
        | inl f ↦
            rw (by_rule_skip rules req (x ∷ xs) quality minimum notices rule e f)
              (choose_ranked-Picks req x xs quality minimum _)
        | inr (i, f) ↦ (
          i,
          user_rule rule.prefer,
          notices,
          by_rule_hit rules req (x ∷ xs) quality minimum notices rule i e f,
          (find_id_lem rule.prefer i (x ∷ xs) f).0,
        )
      ]
    ]

pub In-keep :
    (p : Implementation → Bool) (i : Implementation) (l : List Implementation)
    → In i (keep p l)
    → In i l × (p i ≡ true)
In-keep p i [] m = absurd m
In-keep p i (j ∷ l) m = elim (Bool-cases (p j)) [
  | inr off ↦
      let m' : In i (keep p l) = subst (λ b. In i (if b then j ∷ keep p l else keep p l)) off m in
      let (at, h) = In-keep p i l m' in (inr at, h)
  | inl on ↦
      let m' : In i (j ∷ keep p l) =
        subst (λ b. In i (if b then j ∷ keep p l else keep p l)) on m in
      elim m' [
        | inl e ↦ (inl e, ap p e ∙ on)
        | inr rest ↦ let (at, h) = In-keep p i l rest in (inr at, h)
      ]
]

pub keep_none :
    (p : Implementation → Bool) (i : Implementation) (l : List Implementation)
    → In i l
    → p i ≡ true
    → keep p l ≢ []
keep_none p i [] m h = absurd m
keep_none p i (j ∷ l) (inl e) h = ground (arith, ap p e)
keep_none p i (j ∷ l) (inr m) h = ground (arith, keep_none p i l m h)
