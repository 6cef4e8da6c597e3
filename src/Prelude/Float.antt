-- ===== src/Prelude/Float.antt =====
-- The float64 values as far as the program compares them. A finite float64 is an integer number of
-- units of 2^-1074; `nan` fails every comparison, as in Go. The infinities are 2^2098 units away
-- from 0, and -0 is 0, which no comparison tells apart.
use Prim.Native.Nat.{◌^◌}
use mathlib.Core.Bool.{Bool, true, false, ◌||◌}
use atenea.Prelude.Int.{ℤ, pos, ltb_ℤ}

pub data Float64 : Type 0 where
  nan : Float64
  units : ℤ → Float64

-- `x < y` and `x == y`.
abbrev pub float_lt : Float64 → Float64 → Bool
float_lt nan y = false
float_lt (units a) nan = false
float_lt (units a) (units b) = ltb_ℤ a b

abbrev pub is_nan : Float64 → Bool
is_nan nan = true
is_nan (units a) = false

abbrev pub float_zero : Float64
float_zero = units (pos 0)

abbrev pub float_one : Float64
float_one = units (pos (2 ^ 1074))

-- `x != y`: a NaN differs from everything.
abbrev pub float_ne : Float64 → Float64 → Bool
float_ne nan y = true
float_ne (units a) nan = true
float_ne (units a) (units b) = ltb_ℤ a b || ltb_ℤ b a
