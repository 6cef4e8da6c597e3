-- ===== src/Registry/Distance/Rows.antt =====
-- internal/registry/registry.go: each row of `levenshtein` holds the distances of the prefixes.
use mathlib.Core.List.{reverse, reverse_aux, reverse-reverse}
use mathlib.Core.Path.{subst}
use atenea.Prelude.{ℕ, suc, ◌+◌, ◌≤◌, ◌≡◌, refl, List, [], ◌∷◌, length, arith, ap, sym}
use atenea.Registry.Distance.{next_cells, next_row, fill, first_row, last_cell, levenshtein}
use atenea.Registry.Distance.Edits.{
  Edit, insert, delete, replace, further, Edits, stop, and_then, distance, distance_nil,
  distance_le, distance-Edits,
}

-- The distances from `p` to `q` and to `q` with one rune of `br` more at a time in front: texts are
-- read backwards here, the rune read last first.
row : List ℕ → List ℕ → List ℕ → List ℕ
row p q [] = distance p q ∷ []
row p q (b ∷ br) = distance p q ∷ row p (b ∷ q) br

tail_row : List ℕ → List ℕ → List ℕ → List ℕ
tail_row p q [] = []
tail_row p q (b ∷ br) = row p (b ∷ q) br

row-eta : (p q br : List ℕ) → row p q br ≡ distance p q ∷ tail_row p q br
unfolding row tail_row
row-eta p q [] = refl
row-eta p q (b ∷ br) = refl

next_cells-row :
    (c : ℕ) (p q br : List ℕ)
    → next_cells c (distance p q) (distance (c ∷ p) q) br (tail_row p q br) ≡ tail_row (c ∷ p) q br
unfolding next_cells tail_row distance
next_cells-row c p q [] = refl
next_cells-row c p q (b ∷ br) =
    rw (row-eta p (b ∷ q) br, row-eta (c ∷ p) (b ∷ q) br)
      (ap (λ r. distance (c ∷ p) (b ∷ q) ∷ r) (next_cells-row c p (b ∷ q) br))

next_row-row :
    (c : ℕ) (p br : List ℕ) → next_row c br (suc (length p)) (row p [] br) ≡ row (c ∷ p) [] br
unfolding next_row distance
next_row-row c p br =
    rw (row-eta p [] br, row-eta (c ∷ p) [] br, distance_nil p)
      (ap (λ r. suc (length p) ∷ r)
        (subst (λ n. next_cells c n (suc (length p)) br (tail_row p [] br) ≡ tail_row (c ∷ p) [] br)
          (distance_nil p) (next_cells-row c p [] br)))

first_row-row : (q br : List ℕ) → first_row (length q) br ≡ row [] q br
unfolding first_row row distance
first_row-row q [] = refl
first_row-row q (b ∷ br) = ap (λ r. length q ∷ r) (first_row-row (b ∷ q) br)

fill-row :
    (ar p br : List ℕ) → fill ar br (suc (length p)) (row p [] br) ≡ row (reverse_aux ar p) [] br
unfolding fill
fill-row [] p br = refl
fill-row (c ∷ ar) p br = rw (next_row-row c p br) (fill-row ar (c ∷ p) br)

last_cell-row : (p q br : List ℕ) → last_cell br (row p q br) ≡ distance p (reverse_aux br q)
unfolding last_cell row
last_cell-row p q [] = refl
last_cell-row p q (b ∷ br) = last_cell-row p (b ∷ q) br

length-reverse_aux : (s r : List ℕ) → length (reverse_aux s r) ≡ length s + length r
length-reverse_aux [] r = omega arith
length-reverse_aux (x ∷ s) r = omega (arith, length-reverse_aux s (x ∷ r))

length-reverse : (s : List ℕ) → length (reverse s) ≡ length s
length-reverse s = omega (arith, length-reverse_aux s [])

levenshtein-distance : (a b : List ℕ) → levenshtein a b ≡ distance (reverse a) (reverse b)
unfolding levenshtein distance
levenshtein-distance [] b = sym (length-reverse b)
levenshtein-distance (c ∷ ar) [] =
    rw (distance_nil (reverse (c ∷ ar))) (sym (length-reverse (c ∷ ar)))
levenshtein-distance (c ∷ ar) (b ∷ br) =
    rw (first_row-row [] (b ∷ br), fill-row (c ∷ ar) [] (b ∷ br))
      (last_cell-row (reverse (c ∷ ar)) [] (b ∷ br))

-- Edits of two texts are edits of the texts read backwards.
Edit-behind : (s : List ℕ) {a b : List ℕ} → Edit a b → Edit (reverse_aux s a) (reverse_aux s b)
Edit-behind [] e = e
Edit-behind (x ∷ s) e = Edit-behind s (further x e)

Edit-reverse : {s t : List ℕ} (r : List ℕ) → Edit s t → Edit (reverse_aux s r) (reverse_aux t r)
Edit-reverse r (insert x s) = Edit-behind s (insert x r)
Edit-reverse r (delete x s) = Edit-behind s (delete x r)
Edit-reverse r (replace x y s) = Edit-behind s (replace x y r)
Edit-reverse r (further x e) = Edit-reverse (x ∷ r) e

Edits-reverse : {s t : List ℕ} {n : ℕ} → Edits s t n → Edits (reverse s) (reverse t) n
Edits-reverse (stop s) = stop (reverse s)
Edits-reverse (and_then e es) = and_then (Edit-reverse [] e) (Edits-reverse es)

-- For any two texts: as many insertions, deletions and replacements of one rune as `levenshtein`
-- says turn the first text into the second, and no fewer do.
pub levenshtein_lem :
    (a b : List ℕ) → Edits a b (levenshtein a b) × ((n : ℕ) → Edits a b n → levenshtein a b ≤ n)
levenshtein_lem a b = rw (levenshtein-distance a b) (
  subst (λ s. Edits s b (distance (reverse a) (reverse b))) (reverse-reverse a)
      (subst (λ t. Edits (reverse (reverse a)) t (distance (reverse a) (reverse b)))
        (reverse-reverse b) (Edits-reverse (distance-Edits (reverse a) (reverse b)))),
  λ n es. distance_le (Edits-reverse es),
)
