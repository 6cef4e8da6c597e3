-- ===== src/Contract/Version/RoundTrip.antt =====
-- pkg/contract/version.go: printing and reading are inverse, and what is read fits 64 bits.
use native.Mathlib.Nat.{pow-suc}
use atenea.Prelude.Str.{Str}
use atenea.Prelude.{
  ℕ, zero, suc, ◌+◌, ◌/◌, ◌%◌, ◌^◌, ◌<◌, ◌≡◌, ◌≢◌, refl, ap, List, [], ◌∷◌, ◌++◌, some, arith, All,
}
use atenea.Contract.Capability.{Version}
use atenea.Contract.Version.{
  digits, format_uint, digits_value, parse_uint, split, parse_parts, parse_version, version_string,
}

-- Every number of a version is a `uint64`.
pub record Fits64 (v : Version) : Type 0 where
  pub major : v.major < 2 ^ 64
  pub minor : v.minor < 2 ^ 64
  pub patch : v.patch < 2 ^ 64

div-ten : (fuel n : ℕ) → n < 10 ^ suc fuel → n / 10 < 10 ^ fuel
div-ten fuel n h = omega (arith, pow-suc 10 fuel)

digits_value-digits :
    (fuel n : ℕ) (rest : Str)
    → n < 10 ^ fuel
    → digits_value 0 (digits fuel n rest) ≡ digits_value n rest
unfolding digits digits_value
digits_value-digits zero n rest h = ap (λ m. digits_value m rest) (omega arith)
digits_value-digits (suc fuel) n rest h =
    ground (arith, div-ten fuel n, digits_value-digits fuel (n / 10) ((b'0' + n % 10) ∷ rest))

split-append : (s t : Str) → All (λ c. c ≢ b'.') s → split (s ++ (b'.' ∷ t)) ≡ s ∷ split t
unfolding split
split-append [] t h = refl
split-append (c ∷ s) t (h, hs) = ground (arith, split-append s t hs)

split-no_dot : (s : Str) → All (λ c. c ≢ b'.') s → split s ≡ s ∷ []
unfolding split
split-no_dot [] h = refl
split-no_dot (c ∷ s) (h, hs) = ground (arith, split-no_dot s hs)

digits-no_dot :
    (fuel n : ℕ) (rest : Str) → All (λ c. c ≢ b'.') rest → All (λ c. c ≢ b'.') (digits fuel n rest)
unfolding digits
digits-no_dot zero n rest h = h
digits-no_dot (suc fuel) n rest h =
    ground (arith, digits-no_dot fuel (n / 10) ((b'0' + n % 10) ∷ rest))

digits-more : (fuel n c : ℕ) (rest : Str) → digits fuel n (c ∷ rest) ≢ []
unfolding digits
digits-more zero n c rest = ground arith
digits-more (suc fuel) n c rest =
    ground (arith, digits-more fuel (n / 10) (b'0' + n % 10) (c ∷ rest))

digits-nonempty : (fuel n : ℕ) (rest : Str) → digits (suc fuel) n rest ≢ []
unfolding digits
digits-nonempty fuel n rest = ground (arith, digits-more fuel (n / 10) (b'0' + n % 10) rest)

parse_uint-some :
    (s : Str) (n : ℕ) → s ≢ [] → digits_value 0 s ≡ some n → n < 2 ^ 64 → parse_uint s ≡ some n
unfolding parse_uint
parse_uint-some [] n ne h lt = absurd (ne refl)
parse_uint-some (c ∷ s) n ne h lt = ground arith

parse_parts-some :
    (a b c : Str) (v : Version)
    → parse_uint a ≡ some v.major
    → parse_uint b ≡ some v.minor
    → parse_uint c ≡ some v.patch
    → parse_parts (a ∷ b ∷ c ∷ []) ≡ some v
unfolding parse_parts
parse_parts-some a b c v ha hb hc = ground arith

-- A printed number is not empty, holds no dot, and reads back.
format_uint-no_dot : (n : ℕ) → All (λ c. c ≢ b'.') (format_uint n)
unfolding format_uint digits_value
format_uint-no_dot n = digits-no_dot 20 n [] tt

parse-format_uint : (n : ℕ) → n < 2 ^ 64 → parse_uint (format_uint n) ≡ some n
unfolding format_uint digits_value
parse-format_uint n h =
    let all : digits_value 0 (digits 20 n []) ≡ some n =
      digits_value-digits 20 n [] (omega arith) in
    parse_uint-some (digits 20 n []) n (digits-nonempty 19 n []) all h

-- What is read fits.
parse_uint-lt : (s : Str) (n : ℕ) → parse_uint s ≡ some n → n < 2 ^ 64
unfolding parse_uint
parse_uint-lt [] n h = cc
parse_uint-lt (c ∷ s) n h = ground arith

parse_parts-Fits64 : (parts : List Str) (v : Version) → parse_parts parts ≡ some v → Fits64 v
unfolding parse_parts
parse_parts-Fits64 [] v h = cc
parse_parts-Fits64 (a ∷ []) v h = cc
parse_parts-Fits64 (a ∷ b ∷ []) v h = cc
parse_parts-Fits64 (a ∷ b ∷ c ∷ []) v h =
    ground (arith, parse_uint-lt a v.major, parse_uint-lt b v.minor, parse_uint-lt c v.patch)
parse_parts-Fits64 (a ∷ b ∷ c ∷ d ∷ parts) v h = cc

-- Each version of 64-bit numbers is read back from its printed form, and whatever text is read
-- gives a version of 64-bit numbers.
pub parse-version_string :
    ((v : Version) → Fits64 v → parse_version (version_string v) ≡ some v)
    × ((s : Str) (v : Version) → parse_version s ≡ some v → Fits64 v)
unfolding parse_version version_string
parse-version_string = (
  λ v fits.
      rw
        (
          split-append (format_uint v.major) (format_uint v.minor ++ (b'.' ∷ format_uint v.patch))
              (format_uint-no_dot v.major),
          split-append (format_uint v.minor) (format_uint v.patch) (format_uint-no_dot v.minor),
          split-no_dot (format_uint v.patch) (format_uint-no_dot v.patch),
        )
        (parse_parts-some _ _ _ v (parse-format_uint v.major fits.major)
          (parse-format_uint v.minor fits.minor) (parse-format_uint v.patch fits.patch)),
  λ s v. parse_parts-Fits64 (split s) v,
)
