-- ===== src/Flows/Variables/Examples.antt =====
-- A greeting with a name, and two condition rows.
use owen_main.Common.{ℕ, List, [], ◌∷◌, ◌≡◌, refl, false, some, none, contains}
use Prim.Native.Char.{Char}
use owen_main.Common.Json.{Value, str, dict, end, field, Dict, get, has, as_dict, truthy}
use owen_main.Common.Print.{str_of}
use owen_main.Common.Chars.{codes, strip_chars}
use owen_main.Flows.Variables.{resolve_var}
use owen_main.Flows.Variables.Template.{template_at, is_brace, substitute, value_text, interpolate}
use owen_main.Flows.Variables.Conditions.{
  Matching, condition_operators, row_hit, try_row, row_matches, evaluate_conditions,
}
use owen_main.Flows.Variables.FirstMatch.{FirstHit, evaluate_conditions_first}

abbrev who : Dict
who = ("name", str "Ann") ∷ []

abbrev greeting : List Char
greeting = codes "hi {{ name }}"

abbrev plain_numbers : Matching
plain_numbers = record {
  Number = ℕ;
  to_number = λ s. none;
  less = λ a b. false;
  search_regex = λ p s. some false;
}

abbrev rows : List Value
rows =
    dict (
      field "operator" (str "is_empty")
        (field "variable" (str "name") (field "port" (str "a") end)))
    ∷ dict (
        field "operator" (str "equals") (
          field "variable" (str "name")
            (field "port" (str "b") (field "value" (str "{{name}}") end))))
    ∷ []

second_row : evaluate_conditions plain_numbers 0 rows who ≡ some (1, "b", "Ann")
unfolding evaluate_conditions row_hit try_row row_matches interpolate substitute value_text
    resolve_var get has as_dict truthy str_of contains condition_operators template_at is_brace
    strip_chars
second_row = refl

evaluate_conditions_first_example : FirstHit plain_numbers 0 rows who (1, "b", "Ann")
evaluate_conditions_first_example =
    evaluate_conditions_first plain_numbers 0 rows who (1, "b", "Ann") second_row
