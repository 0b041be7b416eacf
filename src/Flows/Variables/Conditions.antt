-- ===== src/Flows/Variables/Conditions.antt =====
-- `evaluate_conditions` of backend/app/flows/variables.py: ordered rows, the first match wins.
use Prim.Native.String.{compare}
use Prim.Native.Char.{Char, code}
use text.Mathlib.Text.{is_lt}
use owen_main.Common.{
  ℕ, suc, String, List, [], ◌∷◌, Bool, true, false, not, ◌||◌, ◌&&◌, Option, none, some, ◌==◌,
  str_eq, contains, Result, ok, raise, value_error, if◌then◌else◌,
}
use owen_main.Common.Json.{Value, Dict, get, truthy, as_dict}
use owen_main.Common.Print.{str_of}
use owen_main.Common.Chars.{codes, strip}
use owen_main.Flows.Variables.{resolve_var}
use owen_main.Flows.Variables.Template.{value_text, interpolate}

-- What the comparison takes from Python: `float(text)` and its order, and `re.search`, where `none`
-- is `re.error`.
pub record Matching : Type 1 where
  pub Number : Type 0
  pub to_number : String → Option Number
  pub less : Number → Number → Bool
  pub search_regex : String → String → Option Bool

unfoldable pub condition_operators : List String
condition_operators = "equals" ∷ "not_equals" ∷ "contains" ∷ "regex" ∷ "gt" ∷ "lt" ∷ "is_empty" ∷ []

is_prefix : List Char → List Char → Bool
is_prefix [] ds = true
is_prefix (c ∷ cs) [] = false
is_prefix (c ∷ cs) (d ∷ ds) = if code c == code d then is_prefix cs ds else false

is_part : List Char → List Char → Bool
is_part cs [] = is_prefix cs []
is_part cs (d ∷ ds) = is_prefix cs (d ∷ ds) || is_part cs ds

module _ (m : Matching) where
  open m use {Number, to_number, less, search_regex}

  -- Numbers are compared if both sides are numbers, else the texts are.
  numbers_less : Option Number → Option Number → String → String → Bool
  numbers_less (some a) (some b) s t = less a b
  numbers_less _ _ s t = is_lt (compare s t)

  as_number : String → Option Number
  as_number s = to_number (strip s)

  -- `_matches`; `raise` is the `re.error` of a bad pattern.
  unfoldable pub row_matches : String → String → String → Result Bool
  unfolding is_part is_prefix numbers_less as_number
  row_matches operator actual expected =
      if str_eq operator "equals"
      then ok (str_eq actual expected)
      else if str_eq operator "not_equals"
      then ok (not (str_eq actual expected))
      else if str_eq operator "contains"
      then ok (is_part (codes expected) (codes actual))
      else if str_eq operator "regex"
      then elim (search_regex expected actual) [ none ↦ raise value_error | some b ↦ ok b ]
      else if str_eq operator "is_empty"
      then ok (str_eq actual "")
      else if str_eq operator "gt"
      then ok (numbers_less (as_number expected) (as_number actual) expected actual)
      else if str_eq operator "lt"
      then ok (numbers_less (as_number actual) (as_number expected) actual expected)
      else ok false

  or_empty : Value → String
  or_empty v = if truthy v then str_of v else ""

  -- The port and the compared text of a row that matches. A malformed row and a bad pattern are
  -- skipped.
  unfoldable pub try_row : Dict → Dict → Option (String × String)
  unfolding or_empty
  try_row vars row =
      let operator = or_empty (get "operator" row) in
      let well_formed =
        contains operator condition_operators
        && (truthy (get "port" row) && truthy (get "variable" row)) in
      let actual = value_text (resolve_var vars (str_of (get "variable" row))) in
      let expected = interpolate (get "value" row) vars in
      if well_formed
      then elim (row_matches operator actual expected) [
        | ok b ↦ if b then some (str_of (get "port" row), actual) else none
        | raise _ ↦ none
      ]
      else none

  unfoldable pub row_hit : Dict → Value → Option (String × String)
  row_hit vars v = elim (as_dict v) [ none ↦ none | some row ↦ try_row vars row ]

  -- Row number, port and compared text of the first row that matches, from row `i` on.
  unfoldable pub evaluate_conditions : ℕ → List Value → Dict → Option (ℕ × String × String)
  unfolding row_hit
  evaluate_conditions i [] vars = none
  evaluate_conditions i (row ∷ rows) vars =
      let later = evaluate_conditions (suc i) rows vars in
      elim (row_hit vars row) [ none ↦ later | some (port, actual) ↦ some (i, port, actual) ]
