-- ===== src/Prelude/Str.antt =====
-- Go strings: lists of bytes, with the equality and the order of `strings.Compare`.
use Prim.Native.Nat.{ℕ, zero, suc}
use Prim.Native.Char.{code}
use Prim.Native.String.{String}
use mathlib.Core.Path.{◌≡◌, refl}
use mathlib.Core.Logic.{◌↔◌, ◌⊎◌, inl, inr}
use mathlib.Core.List.{List, [], ◌∷◌, reverse}
use mathlib.Core.Bool.{Bool, true, false, ◌&&◌, ◌||◌}
use native.Mathlib.Omega.{arith}
use atenea.Prelude.Tests.{if◌then◌else◌, ltb, leb, ◌==◌, ==_iff, &&-eq-true}

abbrev pub Str : Type 0
Str = List ℕ

-- The bytes of an ASCII literal.
abbrev pub codes : String → Str
codes String.[] = []
codes (String.◌∷◌ c s) = code c ∷ codes s

unfoldable pub str_eq : Str → Str → Bool
str_eq [] [] = true
str_eq [] (d ∷ t) = false
str_eq (c ∷ s) [] = false
str_eq (c ∷ s) (d ∷ t) = (c == d) && str_eq s t

pub str_eq_refl : (s : Str) → str_eq s s ≡ true
unfolding str_eq
str_eq_refl [] = refl
str_eq_refl (c ∷ s) = ground (arith, str_eq_refl s)

pub str_eq→eq : (s t : Str) → str_eq s t ≡ true → s ≡ t
unfolding str_eq
str_eq→eq [] [] h = refl
str_eq→eq [] (d ∷ t) h = cc
str_eq→eq (c ∷ s) [] h = cc
str_eq→eq (c ∷ s) (d ∷ t) h =
    let (e, f) = &&-eq-true (c == d) (str_eq s t) h in
    let p : c ≡ d = (==_iff c d).0 e in cc (p, str_eq→eq s t f)

pub str_eq_iff : (s t : Str) → (str_eq s t ≡ true) ↔ (s ≡ t)
str_eq_iff s t = (str_eq→eq s t, λ e. rw e (str_eq_refl t))

-- `strings.Compare(s, t) < 0`: byte by byte, a proper prefix first.
unfoldable pub str_lt : Str → Str → Bool
str_lt [] [] = false
str_lt [] (d ∷ t) = true
str_lt (c ∷ s) [] = false
str_lt (c ∷ s) (d ∷ t) = if ltb c d then true else (c == d) && str_lt s t

pub str_lt_irrefl : (s : Str) → str_lt s s ≡ false
unfolding str_lt
str_lt_irrefl [] = refl
str_lt_irrefl (c ∷ s) = ground (arith, str_lt_irrefl s)

pub str_lt_trans : (s t u : Str) → str_lt s t ≡ true → str_lt t u ≡ true → str_lt s u ≡ true
unfolding str_lt
str_lt_trans [] t [] h k = ground arith
str_lt_trans [] t (e ∷ u) h k = refl
str_lt_trans (c ∷ s) [] u h k = cc
str_lt_trans (c ∷ s) (d ∷ t) [] h k = cc
str_lt_trans (c ∷ s) (d ∷ t) (e ∷ u) h k = ground (arith, str_lt_trans s t u)

-- Two different strings are ordered one way or the other.
pub str_lt_total : (s t : Str) → (s ≡ t) ⊎ (str_lt s t ≡ true) ⊎ (str_lt t s ≡ true)
unfolding str_lt
str_lt_total [] [] = inl refl
str_lt_total [] (d ∷ t) = inr (inl refl)
str_lt_total (c ∷ s) [] = inr (inr refl)
str_lt_total (c ∷ s) (d ∷ t) = ground (arith, str_lt_total s t)

-- `unicode.IsSpace` on a rune of one byte, and on the bytes of a rune of two and of three.
abbrev pub is_space : ℕ → Bool
is_space c = c == 32 || (leb 9 c && leb c 13)

abbrev is_space2 : ℕ → ℕ → Bool
is_space2 c d = c == 0xC2 && (d == 0x85 || d == 0xA0)

abbrev is_space3 : ℕ → ℕ → ℕ → Bool
is_space3 c d e =
    (c == 0xE1 && (d == 0x9A && e == 0x80))
    || (c == 0xE2
        && ((d == 0x80 && (leb 0x80 e && leb e 0x8A || (e == 0xA8 || (e == 0xA9 || e == 0xAF))))
            || (d == 0x81 && e == 0x9F)))
    || (c == 0xE3 && (d == 0x80 && e == 0x80))

-- How many bytes of white space stand first, at most one rune; and the same from the end of a
-- string, read backwards.
unfoldable first_space : Str → ℕ
first_space [] = 0
first_space (c ∷ []) = if is_space c then 1 else 0
first_space (c ∷ d ∷ []) = if is_space c then 1 else if is_space2 c d then 2 else 0
first_space (c ∷ d ∷ e ∷ s) =
    if is_space c then 1 else if is_space2 c d then 2 else if is_space3 c d e then 3 else 0

unfoldable last_space : Str → ℕ
last_space [] = 0
last_space (c ∷ []) = if is_space c then 1 else 0
last_space (c ∷ d ∷ []) = if is_space c then 1 else if is_space2 d c then 2 else 0
last_space (c ∷ d ∷ e ∷ s) =
    if is_space c then 1 else if is_space2 d c then 2 else if is_space3 e d c then 3 else 0

-- Drops `n` bytes and then the runes that `width` finds.
unfoldable pub trim_from : (Str → ℕ) → ℕ → Str → Str
trim_from width n [] = []
trim_from width (suc n) (c ∷ s) = trim_from width n s
trim_from width zero (c ∷ s) = elim (width (c ∷ s)) [ zero ↦ c ∷ s | suc n ↦ trim_from width n s ]

-- `strings.TrimSpace`
unfoldable pub trim_space : Str → Str
unfolding trim_from first_space last_space
trim_space s = reverse (trim_from last_space 0 (reverse (trim_from first_space 0 s)))
