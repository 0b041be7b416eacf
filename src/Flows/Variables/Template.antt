-- ===== src/Flows/Variables/Template.antt =====
-- `interpolate` of backend/app/flows/variables.py: every match of the pattern
-- `\{\{\s*([^{}]+?)\s*\}\}` is replaced by the text of the variable that it names.
use Prim.Native.Char.{Char, code}
use owen_main.Common.{
  ℕ, zero, suc, String, List, [], ◌∷◌, ◌++◌, Bool, Option, none, some, ◌||◌, ◌==◌, length,
  if◌then◌else◌,
}
use owen_main.Common.Json.{Value, null, Dict}
use owen_main.Common.Print.{str_of}
use owen_main.Common.Chars.{codes, text_of, strip_chars}
use owen_main.Flows.Variables.{resolve_var}

unfoldable pub is_brace : Char → Bool
is_brace c = code c == 123 || code c == 125

-- The longest run without braces, and what follows it.
unfoldable pub take_run : List Char → List Char × List Char
take_run [] = ([], [])
take_run (c ∷ cs) =
    let later = take_run cs in if is_brace c then ([], c ∷ cs) else (c ∷ later.0, later.1)

-- `}}` in front of the rest
unfoldable pub after_close : List Char → Option (List Char)
after_close (c ∷ d ∷ rest) =
    if code c == 125 then (if code d == 125 then some rest else none) else none
after_close _ = none

last_char : Char → List Char → Char
last_char c [] = c
last_char c (d ∷ ds) = last_char d ds

-- The group of the pattern: the run without the white space around it. A run of white space alone
-- leaves its last character to the group, and an empty run does not match.
unfoldable pub group_of : List Char → Option (List Char)
unfolding last_char
group_of [] = none
group_of (c ∷ cs) = elim (strip_chars (c ∷ cs)) [
  | [] ↦ some (last_char c cs ∷ [])
  | d ∷ ds ↦ some (d ∷ ds)
]

unfoldable pub template_rest :
    Option (List Char) → Option (List Char) → Option (List Char × List Char)
template_rest (some name) (some rest) = some (name, rest)
template_rest _ _ = none

-- A match of the pattern at the front: the name, and the text behind the match.
unfoldable pub template_at : List Char → Option (List Char × List Char)
unfolding template_rest take_run after_close group_of
template_at (c ∷ d ∷ cs) =
    if code c == 123
    then (if code d == 123
        then template_rest (group_of (take_run cs).0) (after_close (take_run cs).1)
        else none)
    else none
template_at _ = none

-- `"" if value is None else str(value)`
unfoldable pub value_text : Value → String
value_text null = ""
value_text v = str_of v

-- `_TEMPLATE_RE.sub`, left to right; each round takes at least one character, so the number of
-- characters is fuel enough.
unfoldable pub substitute : ℕ → Dict → List Char → List Char
substitute zero vars cs = []
substitute (suc f) vars [] = []
substitute (suc f) vars (c ∷ cs) = elim (template_at (c ∷ cs)) [
  | none ↦ c ∷ substitute f vars cs
  | some (name, rest) ↦
      codes (value_text (resolve_var vars (text_of name))) ++ substitute f vars rest
]

unfoldable pub interpolate_text : String → Dict → String
unfolding substitute
interpolate_text s vars = text_of (substitute (length (codes s)) vars (codes s))

-- `interpolate`
unfoldable pub interpolate : Value → Dict → String
unfolding interpolate_text value_text
interpolate null vars = ""
interpolate v vars = interpolate_text (str_of v) vars
