-- ===== src/Flows/Variables.antt =====
-- backend/app/flows/variables.py: the per-call variables. A name is resolved here; `Template` has
-- the interpolation of texts and `Conditions` the rows of a `conditions` node.
pub mod Template
pub mod Conditions
pub mod FirstMatch
pub mod Enough
mod Examples
use Prim.Native.String.{◌++◌}
use owen_main.Common.{
  ℕ, zero, suc, ◌-◌, String, List, [], ◌∷◌, Bool, true, false, Option, none, some, str_eq, leb, ltb,
  length, if◌then◌else◌,
}
use owen_main.Common.Json.{Value, null, str, list, dict, Dict, items, elements, get, has}
use owen_main.Common.Chars.{split, parse_int}

nth : List Value → ℕ → Option Value
nth [] i = none
nth (v ∷ vs) zero = some v
nth (v ∷ vs) (suc i) = nth vs i

-- `cur[int(seg)]`: `none` is the `ValueError` or the `IndexError`; a negative index counts from the
-- end.
element_at : List Value → Option (Bool × ℕ) → Option Value
element_at vs none = none
element_at vs (some (negative, n)) =
    if negative then (if leb n (length vs) then nth vs (length vs - n) else none) else nth vs n

-- One segment of `_walk`; `none` where the step fails.
unfoldable pub walk_step : Value → String → Option Value
unfolding element_at nth
walk_step (dict fs) seg = if has seg (items fs) then some (get seg (items fs)) else none
walk_step (list vs) seg = element_at (elements vs) (parse_int seg)
walk_step _ seg = none

-- `_walk`
unfoldable pub walk : Value → List String → Value
walk v [] = v
walk v (seg ∷ path) = elim (walk_step v seg) [ none ↦ null | some w ↦ walk w path ]

-- The longest prefix of the dotted name that is a key anchors the walk; deeper prefixes are tried
-- first, and the whole name is not one of them.
unfoldable pub anchor : Dict → String → List String → Option Value
anchor vars prefix [] = none
anchor vars prefix (s ∷ rest) =
    let deeper = anchor vars (prefix ++ ("." ++ s)) rest in
    elim deeper [
      | some v ↦ some v
      | none ↦ if has prefix vars then some (walk (get prefix vars) (s ∷ rest)) else none
    ]

first_part : Dict → List String → Value
unfolding anchor
first_part vars [] = null
first_part vars (p ∷ ps) = elim (anchor vars p ps) [ none ↦ null | some v ↦ v ]

-- `resolve_var`, on a store that is a dict
unfoldable pub resolve_var : Dict → String → Value
unfolding first_part
resolve_var vars name =
    if str_eq name ""
    then null
    else if has name vars
    then get name vars
    else first_part vars (split b'.' name)
