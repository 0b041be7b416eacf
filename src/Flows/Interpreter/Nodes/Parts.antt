-- ===== src/Flows/Interpreter/Nodes/Parts.antt =====
-- What the node handlers of backend/app/flows/interpreter.py read from a node.
use Prim.Native.Char.{Char, code}
use owen_main.Common.{
  ℕ, String, List, [], ◌∷◌, ◌++◌, Bool, true, false, ◌&&◌, Option, none, some, str_eq, contains,
  sorted, leb, if◌then◌else◌,
}
use owen_main.Common.Json.{
  Value, Values, null, int, str, list, nil, cons, Dict, keys, elements, get, has, truthy, as_dict,
}
use owen_main.Common.Print.{str_of}
use owen_main.Common.Chars.{codes}
use owen_main.Flows.Variables.Template.{interpolate_text}
use owen_main.Flows.Interpreter.Hours.{or_else}

-- `_media_key`: the text of a field that is not empty.
unfoldable pub media_key : Dict → String → Option String
media_key node key = if truthy (get key node) then some (str_of (get key node)) else none

-- Python's `a or b` on optional texts that are not empty
abbrev pub first_some : Option String → Option String → Option String
first_some none b = b
first_some (some a) b = some a

-- `_media`
unfoldable pub media_of : Dict → Option String
media_of node = first_some (media_key node "media") (media_key node "prompt")

-- `_interp`
unfoldable pub interp : Option String → Dict → String
interp none vars = ""
interp (some s) vars = interpolate_text s vars

-- `node.get(key, default)`
abbrev pub get_default : String → Value → Dict → Value
get_default key v node = if has key node then get key node else v

abbrev pub texts : List String → Value
texts ss = list (values ss)
  where
    values : List String → Values
    values [] = nil
    values (s ∷ ss) = cons (str s) (values ss)

abbrev pub number : ℕ → Value
number n = int false n

abbrev pub or_null : String → Value
or_null s = if str_eq s "" then null else str s

is_digit_key : String → Bool
is_digit_key k = one (codes k)
  where
    one : List Char → Bool
    one (c ∷ []) = leb 48 (code c) && leb (code c) 57
    one _ = false

digit_keys : List String → List String
unfolding is_digit_key
digit_keys [] = []
digit_keys (k ∷ ks) = let rest = digit_keys ks in if is_digit_key k then k ∷ rest else rest

-- The digits that a menu node has wired, for its event.
unfoldable pub menu_options : Dict → Value
unfolding digit_keys
menu_options wired = texts (sorted (digit_keys (keys wired)))

operator_id : Value → Value
operator_id v = elim (as_dict v) [ none ↦ v | some d ↦ get "id" d ]

gather_operators : List Value → List String → List String
unfolding operator_id
gather_operators [] out = out
gather_operators (v ∷ vs) out =
    let id = operator_id v in
    let new = truthy id && fresh (str_of id) out in
    gather_operators vs (if new then out ++ (str_of id ∷ []) else out)
  where
    fresh : String → List String → Bool
    fresh s ss = if contains s ss then false else true

as_list : Value → List Value
as_list (list vs) = elements vs
as_list v = v ∷ []

-- `raw` of `_operator_list`: a missing key and a JSON null read alike.
raw_operators : Dict → Value → Value → List Value
unfolding as_list
raw_operators node null null =
    let single = or_else (get "operator" node) (get "target" node) in
    if truthy single then single ∷ [] else []
raw_operators node null group = as_list group
raw_operators node operators group = as_list operators

-- `_operator_list`: no blanks, no repeats.
unfoldable pub operator_list : Dict → List String
unfolding gather_operators raw_operators
operator_list node =
    gather_operators (raw_operators node (get "operators" node) (get "group" node)) []
