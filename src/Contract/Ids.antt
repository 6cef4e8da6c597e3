-- ===== src/Contract/Ids.antt =====
-- pkg/contract/capability.go and implementation.go: the three patterns of identifiers, each an
-- automaton that reads the text once, and the reserved first segment.
use atenea.Prelude.{ℕ, Bool, true, false, ◌==◌, leb, ◌&&◌, ◌||◌, [], ◌∷◌, if◌then◌else◌}
use atenea.Prelude.Str.{Str, codes}

abbrev is_lower : ℕ → Bool
is_lower c = leb b'a' c && leb c b'z'

abbrev is_lower_or_digit : ℕ → Bool
is_lower_or_digit c = is_lower c || (leb b'0' c && leb c b'9')

abbrev is_word : ℕ → Bool
is_word c = is_lower_or_digit c || (c == b'_')

-- Where a match stands: before a segment, inside one, or failed. `some_dot` is whether a dot was
-- read.
pub data Place : Type 0 where
  opening : (some_dot : Bool) → Place
  inside : (some_dot : Bool) → Place
  stopped : Place

run : (Place → ℕ → Place) → Place → Str → Place
run step p [] = p
run step p (c ∷ s) = run step (step p c) s

name_step : Place → ℕ → Place
name_step (opening d) c = if is_lower c then inside d else stopped
name_step (inside d) c = if is_word c then inside d else if c == b'.' then opening true else stopped
name_step stopped c = stopped

without_dot : Place → Bool
without_dot (inside false) = true
without_dot _ = false

with_dot : Place → Bool
with_dot (inside true) = true
with_dot _ = false

-- `^[a-z][a-z0-9_]*$`
unfoldable pub field_name : Str → Bool
unfolding run name_step without_dot
field_name s = without_dot (run name_step (opening false) s)

-- `^[a-z][a-z0-9_]*(\.[a-z][a-z0-9_]*)+$`
unfoldable pub capability_id : Str → Bool
unfolding run name_step with_dot
capability_id s = with_dot (run name_step (opening false) s)

-- The first segment starts with a letter, a later one with a letter or a digit.
slug_step : Place → ℕ → Place
slug_step (opening false) c = if is_lower c then inside false else stopped
slug_step (opening true) c = if is_lower_or_digit c then inside true else stopped
slug_step (inside d) c =
    if is_lower_or_digit c
    then inside d
    else if (c == b'.') || (c == b'_') || (c == b'-')
    then opening true
    else stopped
slug_step stopped c = stopped

ends_inside : Place → Bool
ends_inside (inside d) = true
ends_inside _ = false

-- `^[a-z][a-z0-9]*([._-][a-z0-9]+)*$`
unfoldable pub slug_id : Str → Bool
unfolding run slug_step ends_inside
slug_id s = ends_inside (run slug_step (opening false) s)

abbrev pub reserved_namespace : Str
reserved_namespace = codes "raw"

unfoldable pub first_segment : Str → Str
first_segment [] = []
first_segment (c ∷ s) = if c == b'.' then [] else c ∷ first_segment s
