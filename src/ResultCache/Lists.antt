-- ===== src/ResultCache/Lists.antt =====
-- The linked list of internal/resultcache/cache.go as a list of entries, front first, and its laws
-- as a map from keys.

use atenea.Prelude.{
  ℕ, suc, ◌+◌, ◌≡◌, refl, ap, List, [], ◌∷◌, Option, none, some, arith, length, if◌then◌else◌,
  lookup, delete, Distinct,
}
use atenea.Prelude.Str.{Str, str_eq, str_eq_iff}

pub record Entry : Type 0 where
  pub key : Str
  pub value : List ℕ
  pub bytes : ℕ
  pub expires : ℕ

-- `list.Back`.
unfoldable pub back : List Entry → Option Entry
back [] = none
back (e ∷ []) = some e
back (e ∷ f ∷ l) = back (f ∷ l)

-- `list.Remove` of the element with this key.
unfoldable pub remove_elem : Str → List Entry → List Entry
remove_elem k [] = []
remove_elem k (e ∷ l) = let rest = remove_elem k l in if str_eq e.key k then rest else e ∷ rest

-- The sum of the sizes.
abbrev pub total : List Entry → ℕ
total [] = 0
total (e ∷ l) = e.bytes + total l

-- The list read as a map.
abbrev pub pairs : List Entry → List (Str × Entry)
pairs [] = []
pairs (e ∷ l) = (e.key, e) ∷ pairs l

-- All but the last.
abbrev pub front : List Entry → List Entry
front [] = []
front (e ∷ []) = []
front (e ∷ f ∷ l) = e ∷ front (f ∷ l)

pub length-pairs : (l : List Entry) → length (pairs l) ≡ length l
length-pairs [] = refl
length-pairs (e ∷ l) = ap suc (length-pairs l)

pub pairs-remove_elem : (k : Str) (l : List Entry) → pairs (remove_elem k l) ≡ delete k (pairs l)
unfolding remove_elem delete
pairs-remove_elem k [] = refl
pairs-remove_elem k (e ∷ l) = ground (arith, pairs-remove_elem k l)

-- What is found under a key has that key.
pub key_of_lookup : (k : Str) (l : List Entry) (e : Entry) → lookup k (pairs l) ≡ some e → e.key ≡ k
unfolding lookup
key_of_lookup k [] e h = cc
key_of_lookup k (f ∷ l) e h = ground (arith, str_eq_iff f.key k, key_of_lookup k l e)

pub remove_elem_absent :
    (k : Str) (l : List Entry) → lookup k (pairs l) ≡ none → remove_elem k l ≡ l
unfolding remove_elem lookup
remove_elem_absent k [] h = refl
remove_elem_absent k (e ∷ l) h = ground (arith, remove_elem_absent k l)

pub total-remove_elem :
    (k : Str) (l : List Entry) (e : Entry)
    → Distinct (pairs l)
    → lookup k (pairs l) ≡ some e
    → total (remove_elem k l) + e.bytes ≡ total l
unfolding remove_elem lookup
total-remove_elem k [] e d h = cc
total-remove_elem k (f ∷ l) e d h =
    ground (arith, str_eq_iff f.key k, remove_elem_absent k l, total-remove_elem k l e)

-- The last element is found under its key, and to remove it leaves the rest in order.
pub back_lem :
    (l : List Entry) (e : Entry)
    → Distinct (pairs l)
    → back l ≡ some e
    → (lookup e.key (pairs l) ≡ some e) × (remove_elem e.key l ≡ front l)
unfolding back lookup remove_elem
back_lem [] e d h = cc
back_lem (x ∷ []) e d h = ground (arith, str_eq_iff x.key x.key, str_eq_iff x.key e.key)
back_lem (x ∷ y ∷ l) e d h =
    ground (arith, str_eq_iff x.key e.key, str_eq_iff y.key e.key, back_lem (y ∷ l) e)
