-- ===== src/Flows/Interpreter/Hours.antt =====
-- `evaluate_hours` of backend/app/flows/interpreter.py. The time zone is the world's: the weekday
-- (Monday is 0) and the minute of the day in a zone, or in the clock's own zone.
use Prim.Native.Char.{Char}
use owen_main.Common.{
  ℕ, zero, suc, ◌+◌, ◌*◌, String, List, [], ◌∷◌, Bool, true, false, Option, none, some, Result, ok,
  raise, type_error, value_error, key_error, ◌>>=◌, leb, ltb, ◌==◌, if◌then◌else◌,
}
use owen_main.Common.Json.{
  Value, str, list, dict, nil, end, Dict, items, keys, elements, get, truthy, as_dict,
}
use owen_main.Common.Print.{str_of}
use owen_main.Common.Chars.{codes, text_of, split, parse_int}
use owen_main.Flows.Interpreter.Effects.{World}

-- Python's `a or b`
abbrev pub or_else : Value → Value → Value
or_else a b = if truthy a then a else b

-- A number of minutes as a difference, since `int` reads signs.
minutes_of : Option (Bool × ℕ) → Option (Bool × ℕ) → Result (ℕ × ℕ)
minutes_of (some (hs, h)) (some (ms, m)) = ok (
  (if hs then 0 else h * 60) + (if ms then 0 else m),
  (if hs then h * 60 else 0) + (if ms then m else 0),
)
minutes_of _ _ = raise value_error

from_parts : List String → Result (ℕ × ℕ)
from_parts (h ∷ m ∷ []) = minutes_of (parse_int h) (parse_int m)
from_parts _ = raise value_error

-- `_to_minutes`
unfoldable pub to_minutes : Value → Result (ℕ × ℕ)
unfolding from_parts minutes_of
to_minutes v = from_parts (split b':' (str_of v))

nth_value : List Value → ℕ → Result Value
nth_value [] i = raise value_error
nth_value (v ∷ vs) zero = ok v
nth_value (v ∷ vs) (suc i) = nth_value vs i

characters : List Char → List Value
characters [] = []
characters (c ∷ cs) = str (text_of (c ∷ [])) ∷ characters cs

-- `w[i]`. An `IndexError` is caught like a `ValueError`, and stands here as one; the `KeyError` of a
-- dict is not caught.
index : Value → ℕ → Result Value
index (list vs) i = nth_value (elements vs) i
index (str s) i = nth_value (characters (codes s)) i
index (dict _) i = raise key_error
index _ i = raise type_error

-- `_to_minutes(w[0]) <= cur < _to_minutes(w[1])`, the second bound only after the first.
window_test : Value → ℕ → Result Bool
unfolding index nth_value characters
window_test w cur = do
  opens ← index w 0
  from ← to_minutes opens
  if leb from.0 (cur + from.1)
      then (do closes ← index w 1; until ← to_minutes closes; ok (ltb (cur + until.1) until.0))
      else ok false

-- The errors that the loop catches count as a window that is not open.
unfoldable pub window_open : Value → ℕ → Result Bool
unfolding window_test
window_open w cur = elim (window_test w cur) [
  | ok b ↦ ok b
  | raise e ↦ elim e [ key_error ↦ raise key_error | _ ↦ ok false ]
]

unfoldable pub any_open : List Value → ℕ → Result Bool
any_open [] cur = ok false
any_open (w ∷ ws) cur =
    let later = any_open ws cur in do b ← window_open w cur; if b then ok true else later

as_values : List String → List Value
as_values [] = []
as_values (k ∷ ks) = str k ∷ as_values ks

-- `for w in windows`, over what Python iterates on.
iterate : Value → Result (List Value)
unfolding as_values
iterate (list vs) = ok (elements vs)
iterate (str s) = ok (characters (codes s))
iterate (dict fs) = ok (as_values (keys (items fs)))
iterate _ = raise type_error

day_name : ℕ → String
day_name d =
    if d == 0
    then "mon"
    else if d == 1
    then "tue"
    else if d == 2
    then "wed"
    else if d == 3
    then "thu"
    else if d == 4
    then "fri"
    else if d == 5
    then "sat"
    else "sun"

unfoldable pub in_schedule : Dict → ℕ × ℕ → Result Bool
unfolding iterate day_name characters
in_schedule schedule (day, cur) = do
  windows ← iterate (or_else (get (day_name day) schedule) (list nil))
  any_open windows cur

-- `node.get("hours") or node.get("business_hours") or {}`
unfoldable pub hours_config : Dict → Value
hours_config node = or_else (get "hours" node) (or_else (get "business_hours" node) (dict end))

-- `cfg.get("schedule") or cfg.get("weekly") or {}`
unfoldable pub schedule_of : Dict → Value
schedule_of cfg = or_else (get "schedule" cfg) (or_else (get "weekly" cfg) (dict end))

unfoldable pub zone_of : Dict → Dict → String → Value
zone_of cfg node business_tz = or_else (get "tz" cfg) (or_else (get "tz" node) (str business_tz))

-- The local weekday and minute; a zone that is not known leaves the clock's own.
local_now : World → Value → ℕ × ℕ
local_now w tz = elim (w.local_time tz) [ none ↦ w.own_time | some t ↦ t ]

-- `evaluate_hours`: with no schedule the node is open.
unfoldable pub evaluate_hours : World → Dict → String → Result Bool
unfolding local_now
evaluate_hours w node business_tz = elim (as_dict (hours_config node)) [
  | none ↦ ok true
  | some cfg ↦ elim (as_dict (schedule_of cfg)) [
    | none ↦ ok true
    | some schedule ↦ elim schedule [
      | [] ↦ ok true
      | d ∷ ds ↦ in_schedule (d ∷ ds) (local_now w (zone_of cfg node business_tz))
    ]
  ]
]
