-- ===== src/Contract/Version.antt =====
-- pkg/contract/version.go: reading and printing a version, and which peers a core can talk to. A
-- `uint64` is a number below 2^64.
pub mod RoundTrip
use atenea.Prelude.Str.{Str}
use atenea.Prelude.{
  ℕ, zero, suc, ◌+◌, ◌-◌, ◌*◌, ◌/◌, ◌%◌, ◌^◌, Bool, true, false, ◌==◌, ltb, leb, ◌&&◌, List, [],
  ◌∷◌, ◌++◌, Option, none, some, if◌then◌else◌,
}
use atenea.Contract.Capability.{Version}

-- `Current`
abbrev pub current : Version
current = record { major = 5; minor = 0; patch = 0 }

-- `strconv.FormatUint(n, 10)`: the last digit first. A `uint64` has twenty digits at most.
unfoldable pub digits : ℕ → ℕ → Str → Str
digits zero n rest = rest
digits (suc fuel) n rest =
    let more = digits fuel (n / 10) ((b'0' + n % 10) ∷ rest) in
    if ltb n 10 then (b'0' + n) ∷ rest else more

unfoldable pub format_uint : ℕ → Str
format_uint n = digits 20 n []

-- The digits read so far as a number, then the rest.
unfoldable pub digits_value : ℕ → Str → Option ℕ
digits_value n [] = some n
digits_value n (c ∷ s) =
    let more = digits_value (n * 10 + (c - b'0')) s in
    if leb b'0' c && leb c b'9' then more else none

-- `strconv.ParseUint(s, 10, 64)`: `none` on the empty text, a character that is no digit, or a
-- number out of range.
unfoldable pub parse_uint : Str → Option ℕ
parse_uint [] = none
parse_uint (c ∷ s) = elim (digits_value 0 (c ∷ s)) [
  | none ↦ none
  | some n ↦ if ltb n (2 ^ 64) then some n else none
]

-- `strings.Split(s, ".")`
abbrev pub grow_first : ℕ → List Str → List Str
grow_first c [] = (c ∷ []) ∷ []
grow_first c (part ∷ parts) = (c ∷ part) ∷ parts

unfoldable pub split : Str → List Str
split [] = [] ∷ []
split (c ∷ s) = let parts = split s in if c == b'.' then [] ∷ parts else grow_first c parts

-- The loop over the three destinations.
unfoldable pub parse_parts : List Str → Option Version
parse_parts (a ∷ b ∷ c ∷ []) = elim (parse_uint a) [
  | none ↦ none
  | some major ↦ elim (parse_uint b) [
    | none ↦ none
    | some minor ↦ elim (parse_uint c) [
      | none ↦ none
      | some patch ↦ some (record { major = major; minor = minor; patch = patch })
    ]
  ]
]
parse_parts _ = none

unfoldable pub parse_version : Str → Option Version
parse_version s = parse_parts (split s)

unfoldable pub version_string : Version → Str
version_string v =
    format_uint v.major ++ (b'.' ∷ (format_uint v.minor ++ (b'.' ∷ format_uint v.patch)))

-- Whether a core that speaks the first version can talk to a peer that speaks the second.
unfoldable pub supports : Version → Version → Bool
supports v other = (v.major == other.major) && leb other.minor v.minor
