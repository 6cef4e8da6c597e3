-- ===== src/Contract/Value.antt =====
-- The values of a decoded payload, the `any` of Go, as far as the program looks at them. `number`
-- holds every integer kind; a float64 is read exactly. A map is the list of its entries in the
-- order in which `range` visits them.
use atenea.Prelude.Int.{ℤ, pos, negsuc}
use atenea.Prelude.Float.{Float64, nan, units}
use atenea.Prelude.Str.{Str, str_eq}
use atenea.Prelude.{
  ℕ, suc, ◌-◌, ◌/◌, ◌%◌, ◌^◌, Bool, ◌==◌, ltb, leb, ◌&&◌, Option, none, some, if◌then◌else◌,
}

mutual
  pub data Value : Type 0 where
    null : Value
    boolean : Bool → Value
    number : ℤ → Value
    float : Float64 → Value
    text : Str → Value
    array : Values → Value
    object : Fields → Value

  pub data Values : Type 0 where
    none_left : Values
    item : Value → Values → Values

  pub data Fields : Type 0 where
    end : Fields
    field : Str → Value → Fields → Fields

-- `payload[name]`
unfoldable pub get_field : Str → Fields → Option Value
get_field name end = none
get_field name (field k v rest) = if str_eq k name then some v else get_field name rest

-- How many units of a float64 are 1.
abbrev pub unit : ℕ
unit = 2 ^ 1074

-- A whole float64 in the range of int64; any other fails the round trip through int64. Go leaves the
-- conversion of a number out of range to the machine. It is amd64's here, which gives -2^63; a
-- machine that gives the nearest int64, as arm64 does, differs for 2^63 alone, which it accepts.
whole : ℤ → Option ℤ
whole (pos n) = if (n % unit == 0) && ltb (n / unit) (2 ^ 63) then some (pos (n / unit)) else none
whole (negsuc n) =
    if (suc n % unit == 0) && leb (suc n / unit) (2 ^ 63)
    then some (negsuc (suc n / unit - 1))
    else none

-- `asInt` of internal/selector/selector.go.
unfoldable pub as_int : Value → Option ℤ
unfolding whole
as_int (number n) = some n
as_int (float nan) = none
as_int (float (units a)) = whole a
as_int _ = none
