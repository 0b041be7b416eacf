-- ===== src/Common/Chars.antt =====
-- Texts character by character: Python's `strip`, `split(".")`, `int(text)` and `in`.
use Prim.Native.Nat.{ℕ, ◌+◌, ◌-◌, ◌*◌}
use Prim.Native.Char.{Char, code}
use Prim.Native.String.{String}
use mathlib.Core.Path.{◌≡◌, refl}
use mathlib.Core.Bool.{Bool, true, false, not, ◌&&◌, ◌||◌}
use mathlib.Core.Option.{Option, none, some}
use mathlib.Core.List.{List, [], ◌∷◌, reverse}
use owen_main.Common.Tests.{◌==◌, leb, if◌then◌else◌}

-- `str.isspace` of one character, which is also what `\s` matches in a text pattern.
unfoldable pub is_space : ℕ → Bool
is_space c =
    (leb 9 c && leb c 13)
    || (leb 28 c && leb c 32)
    || c == 133
    || c == 160
    || c == 5760
    || (leb 8192 c && leb c 8202)
    || c == 8232
    || c == 8233
    || c == 8239
    || c == 8287
    || c == 12288

abbrev pub codes : String → List Char
codes String.[] = []
codes (String.◌∷◌ c s) = c ∷ codes s

abbrev pub text_of : List Char → String
text_of [] = ""
text_of (c ∷ cs) = String.◌∷◌ c (text_of cs)

unfoldable pub lstrip : List Char → List Char
lstrip [] = []
lstrip (c ∷ cs) = if is_space (code c) then lstrip cs else c ∷ cs

is_prefix_of : List Char → List Char → Bool
is_prefix_of [] s = true
is_prefix_of (c ∷ cs) [] = false
is_prefix_of (c ∷ cs) (d ∷ ds) = code c == code d && is_prefix_of cs ds

-- `s.startswith(prefix)`
unfoldable pub starts_with : String → String → Bool
unfolding is_prefix_of
starts_with prefix s = is_prefix_of (codes prefix) (codes s)

-- `s.strip()`
unfoldable pub strip_chars : List Char → List Char
unfolding lstrip is_space
strip_chars cs = reverse (lstrip (reverse (lstrip cs)))

unfoldable pub strip : String → String
unfolding strip_chars
strip s = text_of (strip_chars (codes s))

add_first : Char → List (List Char) → List (List Char)
add_first c [] = (c ∷ []) ∷ []
add_first c (p ∷ ps) = (c ∷ p) ∷ ps

-- `s.split(sep)` for a separator of one character; the result is never empty.
unfoldable pub split_chars : ℕ → List Char → List (List Char)
unfolding add_first
split_chars sep [] = [] ∷ []
split_chars sep (c ∷ cs) =
    let rest = split_chars sep cs in if code c == sep then [] ∷ rest else add_first c rest

texts_of : List (List Char) → List String
texts_of [] = []
texts_of (p ∷ ps) = text_of p ∷ texts_of ps

unfoldable pub split : ℕ → String → List String
unfolding split_chars texts_of
split sep s = texts_of (split_chars sep (codes s))

is_digit : ℕ → Bool
is_digit c = leb 48 c && leb c 57

-- Digits with single underscores between them, as `int` reads them. The flag says that the last
-- character was a digit.
read_digits : Bool → ℕ → List Char → Option ℕ
read_digits after n [] = if after then some n else none
read_digits after n (c ∷ cs) =
    let d = code c in
    let more = read_digits (is_digit d) (if is_digit d then n * 10 + (d - 48) else n) cs in
    if is_digit d || (d == 95 && after) then more else none

signed : Bool → Option ℕ → Option (Bool × ℕ)
signed negative none = none
signed negative (some n) = some (negative && not (n == 0), n)

read_sign : List Char → Option (Bool × ℕ)
read_sign [] = none
read_sign (c ∷ cs) =
    if code c == 45
    then signed true (read_digits false 0 cs)
    else if code c == 43
    then signed false (read_digits false 0 cs)
    else signed false (read_digits false 0 (c ∷ cs))

-- `int(text)` as sign and size; `none` is `ValueError`. Digits are those of ASCII.
unfoldable pub parse_int : String → Option (Bool × ℕ)
unfolding read_sign read_digits is_digit signed strip_chars
parse_int s = read_sign (strip_chars (codes s))

parse_int_example : parse_int " -1_20 " ≡ some (true, 120)
unfolding parse_int
parse_int_example = refl
