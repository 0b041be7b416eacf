-- ===== src/Common/Json.antt =====
-- The values of a flow graph and of the flow variables: what `json.loads` returns, with Python's
-- `None`, truth test, `isinstance` tests and `dict` look-up.
use Prim.Native.Nat.{ℕ, zero, suc}
use Prim.Native.String.{String}
use mathlib.Core.Bool.{Bool, true, false, not, ◌||◌}
use mathlib.Core.Option.{Option, none, some}
use mathlib.Core.List.{List, [], ◌∷◌}
use owen_main.Common.Tests.{◌==◌, if◌then◌else◌}
use owen_main.Common.Texts.{str_eq}

-- A float is carried by the text that `repr` prints for it; a whole number by sign and size.
mutual
  pub data Value : Type 0 where
    null : Value
    bool : Bool → Value
    int : Bool → ℕ → Value
    float : String → Value
    str : String → Value
    list : Values → Value
    dict : Fields → Value

  pub data Values : Type 0 where
    nil : Values
    cons : Value → Values → Values

  pub data Fields : Type 0 where
    end : Fields
    field : String → Value → Fields → Fields

-- A whole number; `negsuc n` is -(n + 1).
pub data ℤ : Type 0 where
  pos : ℕ → ℤ
  negsuc : ℕ → ℤ

-- The number that `int` holds with its sign.
unfoldable pub signed : Bool → ℕ → ℤ
signed true (suc n) = negsuc n
signed true zero = pos 0
signed false n = pos n

-- A `dict` as its items, in insertion order.
abbrev pub Dict : Type 0
Dict = List (String × Value)

abbrev pub items : Fields → Dict
items end = []
items (field k v fs) = (k, v) ∷ items fs

abbrev pub elements : Values → List Value
elements nil = []
elements (cons v vs) = v ∷ elements vs

-- `d.get(k)`; Python's `None` is `null`, so a missing key and a JSON null read alike.
unfoldable pub get : String → Dict → Value
get k [] = null
get k ((j, v) ∷ d) = if str_eq j k then v else get k d

-- `k in d`
unfoldable pub has : String → Dict → Bool
has k [] = false
has k ((j, v) ∷ d) = str_eq j k || has k d

abbrev pub keys : Dict → List String
keys [] = []
keys ((k, v) ∷ d) = k ∷ keys d

-- `bool(v)`
unfoldable pub truthy : Value → Bool
truthy null = false
truthy (bool b) = b
truthy (int s n) = not (n == 0)
truthy (float t) = not (str_eq t "0.0" || str_eq t "-0.0")
truthy (str s) = not (str_eq s "")
truthy (list nil) = false
truthy (list (cons _ _)) = true
truthy (dict end) = false
truthy (dict (field _ _ _)) = true

-- `v == "text"`
unfoldable pub is_text : String → Value → Bool
is_text t (str s) = str_eq s t
is_text t _ = false

-- `isinstance(v, dict)`, with the items
unfoldable pub as_dict : Value → Option Dict
as_dict (dict fs) = some (items fs)
as_dict _ = none

-- A `list` or a `dict` cannot be looked up in a set or a dict: `TypeError: unhashable type`.
unfoldable pub hashable : Value → Bool
hashable (list _) = false
hashable (dict _) = false
hashable _ = true
