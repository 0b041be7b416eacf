-- ===== src/Common/Store.antt =====
-- Python's `d[k] = v` and `d.pop(k, None)` on a dict kept as its items in insertion order.
use owen_main.Common.Tests.{if◌then◌else◌}
use owen_main.Common.Texts.{str_eq, eq_iff}
use owen_main.Common.Json.{Value, Values, nil, cons, Dict, get, has}
use Prim.Native.String.{String}
use mathlib.Core.Path.{◌≡◌, refl}
use mathlib.Core.Bool.{not, ◌&&◌, ◌||◌}
use mathlib.Core.List.{List, [], ◌∷◌}
use native.Mathlib.Omega.{arith}

-- A key that is there keeps its place.
unfoldable pub set_item : String → Value → Dict → Dict
set_item k v [] = (k, v) ∷ []
set_item k v ((j, w) ∷ d) = if str_eq j k then (j, v) ∷ d else (j, w) ∷ set_item k v d

unfoldable pub remove : String → Dict → Dict
remove k [] = []
remove k ((j, w) ∷ d) = let rest = remove k d in if str_eq j k then rest else (j, w) ∷ rest

-- `d.update(e)`
unfoldable pub update : Dict → Dict → Dict
update d [] = d
update d ((k, v) ∷ e) = update (set_item k v d) e

pub get-set_item :
    (k j : String) (v : Value) (d : Dict)
    → get j (set_item k v d) ≡ (if str_eq k j then v else get j d)
unfolding get set_item
get-set_item k j v [] = refl
get-set_item k j v ((i, w) ∷ d) =
    ground (arith, get-set_item k j v d, eq_iff k j, eq_iff i k, eq_iff i j)

pub has-set_item :
    (k j : String) (v : Value) (d : Dict) → has j (set_item k v d) ≡ (str_eq k j || has j d)
unfolding has set_item
has-set_item k j v [] = refl
has-set_item k j v ((i, w) ∷ d) =
    ground (arith, has-set_item k j v d, eq_iff k j, eq_iff i k, eq_iff i j)

pub has-remove : (k j : String) (d : Dict) → has j (remove k d) ≡ (not (str_eq k j) && has j d)
unfolding has remove
has-remove k j [] = ground arith
has-remove k j ((i, w) ∷ d) = ground (arith, has-remove k j d, eq_iff k j, eq_iff i k, eq_iff i j)

-- A list of values as a value.
abbrev pub to_values : List Value → Values
to_values [] = nil
to_values (v ∷ vs) = cons v (to_values vs)
