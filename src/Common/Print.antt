-- ===== src/Common/Print.antt =====
-- Python's `str(v)` on the values of `Json`: the text of a value where the code prints it.
use Prim.Native.Nat.{ℕ, zero, suc, ◌/◌, ◌%◌}
use Prim.Native.Char.{Char, code}
use Prim.Native.String.{String, ◌++◌}
use mathlib.Core.Path.{◌≡◌, refl}
use mathlib.Core.Bool.{Bool, true, false, ◌&&◌}
use owen_main.Common.Tests.{◌==◌, ltb, if◌then◌else◌}
use owen_main.Common.Json.{
  Value, null, bool, int, float, str, list, dict, Values, nil, cons, Fields, end, field,
}

digit_text : ℕ → String
digit_text d =
    if d == 0
    then "0"
    else if d == 1
    then "1"
    else if d == 2
    then "2"
    else if d == 3
    then "3"
    else if d == 4
    then "4"
    else if d == 5
    then "5"
    else if d == 6
    then "6"
    else if d == 7
    then "7"
    else if d == 8
    then "8"
    else if d == 9
    then "9"
    else if d == 10
    then "a"
    else if d == 11
    then "b"
    else if d == 12
    then "c"
    else if d == 13
    then "d"
    else if d == 14
    then "e"
    else "f"

-- The fuel is the number itself, which has fewer digits than that.
print_digits : ℕ → ℕ → String → String
print_digits zero n acc = acc
print_digits (suc f) n acc =
    let text = digit_text (n % 10) ++ acc in
    let more = print_digits f (n / 10) text in if n / 10 == 0 then text else more

-- `str(n)` of a whole number that is not negative
unfoldable pub print_ℕ : ℕ → String
unfolding digit_text print_digits
print_ℕ n = print_digits (suc n) n ""

-- `'` by default, `"` where the text has a `'` and no `"`
has_code : ℕ → String → Bool
has_code c String.[] = false
has_code c (String.◌∷◌ d s) = if code d == c then true else has_code c s

quote_of : String → ℕ
quote_of s = if has_code 39 s && not_has s then 34 else 39
  where
    not_has : String → Bool
    not_has t = if has_code 34 t then false else true

escape_char : ℕ → Char → String
escape_char q c =
    let n = code c in
    let plain : String = String.◌∷◌ c String.[] in
    if n == 92
    then "\\\\"
    else if n == 10
    then "\\n"
    else if n == 13
    then "\\r"
    else if n == 9
    then "\\t"
    else if n == q
    then "\\" ++ plain
    else if ltb n 32
    then "\\x" ++ (digit_text (n / 16) ++ digit_text (n % 16))
    else if n == 127
    then "\\x7f"
    else plain

escape : ℕ → String → String
escape q String.[] = ""
escape q (String.◌∷◌ c s) = escape_char q c ++ escape q s

repr_str : String → String
repr_str s =
    let q = quote_of s in
    let mark : String = if q == 34 then "\"" else "'" in mark ++ (escape q s ++ mark)

-- `repr(v)`, which containers print their parts by
unfoldable mutual
  unfolding print_ℕ repr_str quote_of has_code escape escape_char

  repr : Value → String
  repr null = "None"
  repr (bool b) = if b then "True" else "False"
  repr (int negative n) = if negative then "-" ++ print_ℕ n else print_ℕ n
  repr (float t) = t
  repr (str s) = repr_str s
  repr (list vs) = "[" ++ (repr_elements vs ++ "]")
  repr (dict fs) = "{" ++ (repr_items fs ++ "}")

  repr_elements : Values → String
  repr_elements nil = ""
  repr_elements (cons v vs) = repr v ++ repr_more vs

  repr_more : Values → String
  repr_more nil = ""
  repr_more (cons v vs) = ", " ++ (repr v ++ repr_more vs)

  repr_items : Fields → String
  repr_items end = ""
  repr_items (field k v fs) = repr_str k ++ (": " ++ (repr v ++ repr_more_items fs))

  repr_more_items : Fields → String
  repr_more_items end = ""
  repr_more_items (field k v fs) = ", " ++ (repr_str k ++ (": " ++ (repr v ++ repr_more_items fs)))

-- `str(v)`: a text prints as itself
unfoldable pub str_of : Value → String
unfolding repr
str_of (str s) = s
str_of v = repr v

str_of_example : str_of (list (cons (str "it's") (cons (int true 120) nil))) ≡ "[\"it's\", -120]"
unfolding str_of repr
str_of_example = refl
