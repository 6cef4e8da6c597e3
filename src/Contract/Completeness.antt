-- ===== src/Contract/Completeness.antt =====
-- pkg/contract/completeness.go: whether an answer says of itself that it is not whole, and the
-- outcome of a call (agent.go) as far as the quality of an answer reads it.
use atenea.Prelude.Int.{ℤ, pos, ltb_ℤ}
use atenea.Prelude.Float.{float_lt, float_zero}
use atenea.Prelude.Str.{Str, codes, str_eq, trim_space}
use atenea.Prelude.{Bool, true, false, not, ◌&&◌, ◌||◌, List, [], ◌∷◌, Option}
use atenea.Contract.Implementation.{contains, to_lower}
use atenea.Contract.Value.{
  Value, null, boolean, number, float, text, array, object, Values, none_left, item, Fields, end,
  field,
}

unfoldable pub positive_number : Value → Bool
positive_number (number n) = ltb_ℤ (pos 0) n
positive_number (float x) = float_lt float_zero x
positive_number _ = false

abbrev flag_words : List Str
flag_words =
    codes "true"
    ∷ codes "yes"
    ∷ codes "partial"
    ∷ codes "incomplete"
    ∷ codes "lower_bound"
    ∷ codes "truncated"
    ∷ []

unfoldable pub structural_flag : Value → Bool
unfolding trim_space positive_number
structural_flag (boolean b) = b
structural_flag (text s) = contains (to_lower (trim_space s)) flag_words
structural_flag (number n) = positive_number (number n)
structural_flag (float x) = positive_number (float x)
structural_flag _ = false

abbrev flag_keys : List Str
flag_keys = codes "truncated" ∷ codes "partial" ∷ codes "incomplete" ∷ codes "lower_bound" ∷ []

abbrev count_keys : List Str
count_keys =
    codes "source_trimmed" ∷ codes "trimmed" ∷ codes "truncated_count" ∷ codes "omitted" ∷ []

abbrev cursor_keys : List Str
cursor_keys = codes "next_cursor" ∷ codes "continuation_cursor" ∷ []

-- Whether the printed value is neither blank nor `<nil>`: any other kind prints some text.
unfoldable pub prints_text : Value → Bool
unfolding trim_space str_eq
prints_text null = false
prints_text (text s) = not (str_eq (trim_space s) []) && not (str_eq (trim_space s) (codes "<nil>"))
prints_text _ = true

-- A text that is not empty and not the word `complete`.
unfoldable pub says_incomplete : Value → Bool
unfolding trim_space str_eq
says_incomplete (text s) =
    not (str_eq s []) && not (str_eq (to_lower (trim_space s)) (codes "complete"))
says_incomplete _ = false

-- One entry of a map: the `switch` on its key, whose lists of words have no word in common.
unfoldable pub entry_partial : Str → Value → Bool
unfolding structural_flag positive_number prints_text says_incomplete str_eq trim_space
entry_partial key child =
    let k = to_lower (trim_space key) in
    (contains k flag_keys && structural_flag child)
    || (contains k count_keys && positive_number child)
    || (contains k cursor_keys && prints_text child)
    || (str_eq k (codes "completeness") && says_incomplete child)

unfoldable mutual
  unfolding entry_partial

  pub structural_partial : Value → Bool
  structural_partial (object fields) = fields_partial fields
  structural_partial (array items) = items_partial items
  structural_partial null = false
  structural_partial (boolean b) = false
  structural_partial (number n) = false
  structural_partial (float x) = false
  structural_partial (text s) = false

  pub fields_partial : Fields → Bool
  fields_partial end = false
  fields_partial (field key child rest) =
      entry_partial key child || structural_partial child || fields_partial rest

  pub items_partial : Values → Bool
  items_partial none_left = false
  items_partial (item child rest) = structural_partial child || items_partial rest

pub data Verdict : Type 0 where
  verdict_unspecified verdict_ok verdict_failed verdict_canceled : Verdict
  verdict_incomplete verdict_refused : Verdict

abbrev pub is_ok : Verdict → Bool
is_ok verdict_ok = true
is_ok _ = false

pub record QueryEvidence : Type 0 where
  pub truncated : Bool
  pub completeness : Str

pub record Outcome : Type 0 where
  pub evidence : List QueryEvidence
  pub result : Option Fields
  pub verdict : Verdict
  pub out_of_scope : ℤ
