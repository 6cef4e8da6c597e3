-- ===== src/Registry/Distance/Edits.antt =====
-- internal/registry/registry.go: what `levenshtein` computes, by edits of one rune.
use mathlib.Core.Path.{subst}
use atenea.Prelude.{ℕ, suc, ◌≤◌, ◌≡◌, refl, List, [], ◌∷◌, length, arith, sym, ◌⊎◌, inl, inr}
use atenea.Registry.Distance.{cell}

-- One rune inserted, deleted or replaced, at any place.
pub data Edit : List ℕ → List ℕ → Type 0 where
  insert : (x : ℕ) (s : List ℕ) → Edit s (x ∷ s)
  delete : (x : ℕ) (s : List ℕ) → Edit (x ∷ s) s
  replace : (x y : ℕ) (s : List ℕ) → Edit (x ∷ s) (y ∷ s)
  further : (x : ℕ) {s t : List ℕ} → Edit s t → Edit (x ∷ s) (x ∷ t)

-- Some number of edits, one after another.
pub data Edits : List ℕ → List ℕ → ℕ → Type 0 where
  stop : (s : List ℕ) → Edits s s 0
  and_then : {s t u : List ℕ} {n : ℕ} → Edit s t → Edits t u n → Edits s u (suc n)

-- The distance by recursion on the two texts, first rune against first rune.
unfoldable pub distance : List ℕ → List ℕ → ℕ
unfolding cell
distance [] t = length t
distance (x ∷ s) [] = suc (length s)
distance (x ∷ s) (y ∷ t) = cell x y (distance s (y ∷ t)) (distance (x ∷ s) t) (distance s t)

pub distance_nil : (s : List ℕ) → distance s [] ≡ length s
unfolding distance
distance_nil [] = refl
distance_nil (x ∷ s) = refl

-- A rune more on either side costs one at most, in both directions.
distance-left_up : (x : ℕ) (s t : List ℕ) → distance (x ∷ s) t ≤ suc (distance s t)
unfolding distance cell
distance-left_up x s [] = omega (arith, distance_nil s)
distance-left_up x s (y ∷ t) = ground arith

distance-right_up : (y : ℕ) (s t : List ℕ) → distance s (y ∷ t) ≤ suc (distance s t)
unfolding distance cell
distance-right_up y [] t = omega arith
distance-right_up y (x ∷ s) t = ground arith

distance-left_down : (x : ℕ) (s t : List ℕ) → distance s t ≤ suc (distance (x ∷ s) t)
unfolding distance cell
distance-left_down x s [] = omega (arith, distance_nil s)
distance-left_down x s (y ∷ t) = ground (arith, distance-left_down x s t, distance-right_up y s t)

distance-replace : (x y : ℕ) (s t : List ℕ) → distance (x ∷ s) t ≤ suc (distance (y ∷ s) t)
unfolding distance cell
distance-replace x y s [] = omega arith
distance-replace x y s (z ∷ t) = ground (arith, distance-replace x y s t)

distance-further :
    (x : ℕ) (s s' : List ℕ)
    → ((t : List ℕ) → distance s t ≤ suc (distance s' t))
    → (t : List ℕ) → distance (x ∷ s) t ≤ suc (distance (x ∷ s') t)
unfolding distance cell
distance-further x s s' h [] = omega (arith, h [], distance_nil s, distance_nil s')
distance-further x s s' h (y ∷ t) = ground (arith, h t, h (y ∷ t), distance-further x s s' h t)

distance-Edit : {s s' : List ℕ} (t : List ℕ) → Edit s s' → distance s t ≤ suc (distance s' t)
unfolding distance cell
distance-Edit t (insert x s) = distance-left_down x s t
distance-Edit t (delete x s) = distance-left_up x s t
distance-Edit t (replace x y s) = distance-replace x y s t
distance-Edit t (further x {s} {t = s'} e) = distance-further x s s' (λ u. distance-Edit u e) t

distance_self : (s : List ℕ) → distance s s ≡ 0
unfolding distance cell
distance_self [] = refl
distance_self (x ∷ s) = ground (arith, distance_self s)

pub distance_le : {s t : List ℕ} {n : ℕ} → Edits s t n → distance s t ≤ n
distance_le (stop s) = omega (arith, distance_self s)
distance_le {t = u} (and_then e es) = omega (arith, distance-Edit u e, distance_le es)

Edits-further : (x : ℕ) {s t : List ℕ} {n : ℕ} → Edits s t n → Edits (x ∷ s) (x ∷ t) n
Edits-further x (stop s) = stop (x ∷ s)
Edits-further x (and_then e es) = and_then (further x e) (Edits-further x es)

insert_all : (t : List ℕ) → Edits [] t (length t)
insert_all [] = stop []
insert_all (y ∷ t) = and_then (insert y []) (Edits-further y (insert_all t))

delete_all : (s : List ℕ) → Edits s [] (length s)
delete_all [] = stop []
delete_all (x ∷ s) = and_then (delete x s) (delete_all s)

-- The cell comes from the one above, the one on the left, or the one across the corner.
cell-cases :
    (c b up left diag : ℕ)
    → (cell c b up left diag ≡ suc up)
      ⊎ (cell c b up left diag ≡ suc left)
      ⊎ ((c ≡ b) × (cell c b up left diag ≡ diag))
      ⊎ (cell c b up left diag ≡ suc diag)
unfolding cell
cell-cases c b up left diag = ground arith

pub distance-Edits : (s t : List ℕ) → Edits s t (distance s t)
unfolding distance
distance-Edits [] t = insert_all t
distance-Edits (x ∷ s) [] = delete_all (x ∷ s)
distance-Edits (x ∷ s) (y ∷ t) =
    let P : ℕ → Type 0 = Edits (x ∷ s) (y ∷ t) in
    elim (cell-cases x y (distance s (y ∷ t)) (distance (x ∷ s) t) (distance s t)) [
      | inl h ↦ subst P (sym h) (and_then (delete x s) (distance-Edits s (y ∷ t)))
      | inr (inl h) ↦
          subst P (sym h) (and_then (insert y (x ∷ s)) (Edits-further y (distance-Edits (x ∷ s) t)))
      | inr (inr (inl (e, h))) ↦ subst P (sym h) (
          subst (λ z. Edits (x ∷ s) (z ∷ t) (distance s t)) e
            (Edits-further x (distance-Edits s t)))
      | inr (inr (inr h)) ↦
          subst P (sym h) (and_then (replace x y s) (Edits-further y (distance-Edits s t)))
    ]
