-- ===== src/Flows/Validator/Cycles.antt =====
-- `_warn_cycles` of backend/app/flows/validator.py: depth-first search with three colours.
use owen_main.Common.{
  ℕ, zero, suc, String, List, [], ◌∷◌, ◌++◌, Option, none, some, str_eq, length, if◌then◌else◌,
}
use owen_main.Common.Json.{Dict, keys}
use owen_main.Flows.Validator.Warnings.{Warning, has_cycle, successors}

pub data Color : Type 0 where
  white grey black : Color

-- The `color` dict; every node starts white.
abbrev pub Colors : Type 0
Colors = List (String × Color)

unfoldable pub color_of : Colors → String → Color
color_of [] k = white
color_of ((j, c) ∷ cs) k = if str_eq j k then c else color_of cs k

abbrev pub paint : String → Color → Colors → Colors
paint k c cs = (k, c) ∷ cs

-- `path[path.index(target):] + [target]`
unfoldable pub from_first : String → List String → List String
from_first t [] = []
from_first t (p ∷ ps) = if str_eq p t then p ∷ ps else from_first t ps

abbrev pub Visit : Type 0
Visit = Colors → String → List String → Colors × Option (List String)

-- The `for target` loop of `visit`, then `color[nid] = BLACK`.
unfoldable pub visit_targets :
    Visit → String → List String → Colors → List String → Colors × Option (List String)
visit_targets visit nid [] cs path = (paint nid black cs, none)
visit_targets visit nid (t ∷ ts) cs path = elim (color_of cs t) [
  | grey ↦ (cs, some (from_first t path ++ (t ∷ [])))
  | white ↦
      let found = visit cs t path in
      elim found.1 [ some cycle ↦ found | none ↦ visit_targets visit nid ts found.0 path ]
  | black ↦ visit_targets visit nid ts cs path
]

-- The fuel bounds the depth: each call paints a white node grey.
unfoldable pub visit : ℕ → Dict → Visit
visit zero nodes cs nid path = (cs, none)
visit (suc f) nodes cs nid path =
    visit_targets (visit f nodes) nid (successors nodes nid) (paint nid grey cs)
      (path ++ (nid ∷ []))

-- `for nid in nodes`
unfoldable pub search_from : Visit → List String → Colors → Option (List String)
search_from visit [] cs = none
search_from visit (nid ∷ nids) cs = elim (color_of cs nid) [
  | white ↦
      let found = visit cs nid [] in
      elim found.1 [ some cycle ↦ some cycle | none ↦ search_from visit nids found.0 ]
  | grey ↦ search_from visit nids cs
  | black ↦ search_from visit nids cs
]

unfoldable pub find_cycle : Dict → Option (List String)
find_cycle nodes = search_from (visit (suc (length nodes)) nodes) (keys nodes) []

unfoldable pub cycle_warnings : Dict → List Warning
cycle_warnings nodes = elim (find_cycle nodes) [ none ↦ [] | some cycle ↦ has_cycle cycle ∷ [] ]
