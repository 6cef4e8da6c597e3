-- ===== src/Registry/Distance.antt =====
-- internal/registry/registry.go: `levenshtein`, on the runes of the two texts. The two slices that
-- swap roles are the row read and the row written; cells are written from the left.
pub mod Edits
pub mod Rows
use atenea.Prelude.{ℕ, suc, ◌+◌, ◌==◌, leb, List, [], ◌∷◌, length, if◌then◌else◌}

abbrev pub min : ℕ → ℕ → ℕ
min a b = if leb a b then a else b

-- The cell under `up`, to the right of `left`.
unfoldable pub cell : ℕ → ℕ → ℕ → ℕ → ℕ → ℕ
cell c b up left diag = min (up + 1) (min (left + 1) (diag + (if c == b then 0 else 1)))

-- The cells from `j` on: `diag` is `prev[j-1]`, `left` is `curr[j-1]`, and `ups` is `prev[j:]`.
unfoldable pub next_cells : ℕ → ℕ → ℕ → List ℕ → List ℕ → List ℕ
next_cells c diag left [] ups = []
next_cells c diag left (b ∷ br) [] = []
next_cells c diag left (b ∷ br) (up ∷ ups) =
    let v = cell c b up left diag in v ∷ next_cells c up v br ups

-- The turn `i` of the outer loop, for the rune `c` of `a`.
unfoldable pub next_row : ℕ → List ℕ → ℕ → List ℕ → List ℕ
next_row c br i [] = []
next_row c br i (diag ∷ ups) = i ∷ next_cells c diag i br ups

-- The turns from `i` on.
unfoldable pub fill : List ℕ → List ℕ → ℕ → List ℕ → List ℕ
fill [] br i prev = prev
fill (c ∷ ar) br i prev = fill ar br (suc i) (next_row c br i prev)

-- 0, 1, 2 and so on: one number more than `b` has runes.
unfoldable pub first_row : ℕ → List ℕ → List ℕ
first_row j [] = j ∷ []
first_row j (b ∷ br) = j ∷ first_row (suc j) br

-- `prev[len(br)]`
unfoldable pub last_cell : List ℕ → List ℕ → ℕ
last_cell br [] = 0
last_cell [] (v ∷ row) = v
last_cell (b ∷ br) (v ∷ row) = last_cell br row

unfoldable pub levenshtein : List ℕ → List ℕ → ℕ
levenshtein [] br = length br
levenshtein (c ∷ ar) [] = length (c ∷ ar)
levenshtein (c ∷ ar) (b ∷ br) = last_cell (b ∷ br) (fill (c ∷ ar) (b ∷ br) 1 (first_row 0 (b ∷ br)))
