-- ===== src/Flows/Validator/WellFormed.antt =====
-- What a call-flow graph must satisfy to be activated, said of the graph alone.
use owen_main.Common.{String, List, ◌∷◌, ◌++◌, ◌≡◌, ◌⊎◌, true, some, contains, All}
use owen_main.Common.Json.{Value, null, str, dict, Fields, Dict, items, get, has, as_dict}
use owen_main.Flows.Validator.Ports.{node_types, allowed_ports, edges}
use owen_main.Flows.Validator.Errors.{node_items}

-- The target is the id of a node.
abbrev pub Resolves : Dict → Value → Type 0
Resolves nodes target = (s : String) × (target ≡ str s) × (has s nodes ≡ true)

-- A wired port is one of the allowed ports, and leads to a node.
abbrev pub EdgeFits : Dict → List String → String × Value → Type 0
EdgeFits nodes allowed e = (contains e.0 allowed ≡ true) × Resolves nodes e.1

-- A node is an object of a known type, whose wired ports fit that type.
abbrev pub NodeFits : Dict → String × Value → Type 0
NodeFits nodes n =
    (node : Dict) × (as_dict n.1 ≡ some node)
    × (t : String) × (get "type" node ≡ str t)
    × (contains t node_types ≡ true)
    × All (EdgeFits nodes (allowed_ports t node)) (edges node)

abbrev pub IsObject : String × Value → Type 0
IsObject n = (d : Dict) × (as_dict n.1 ≡ some d)

abbrev pub IsEntry : String × Value → Type 0
IsEntry n = get "type" (node_items n.1) ≡ str "entry"

-- Just one node, `entry`, has the type "entry".
abbrev pub OneEntry : Dict → Type 0
OneEntry nodes =
    (before : Dict) × (entry : String × Value) × (after : Dict) × (nodes
      ≡ before ++ (entry ∷ after))
    × IsEntry entry
    × All (λ n. ¬ IsEntry n) before
    × All (λ n. ¬ IsEntry n) after

abbrev pub FallbackFits : Dict → Value → Type 0
FallbackFits nodes v = (v ≡ null) ⊎ Resolves nodes v

pub record WellFormedParts (g nodes : Dict) : Type 0 where
  pub one_entry : OneEntry nodes
  pub nodes_fit : All (NodeFits nodes) nodes
  pub fallback_fits : FallbackFits nodes (get "default_fallback" g)

-- The graph is an object, and its nodes are an object, of which the parts above hold.
abbrev pub WellFormed : Value → Type 0
WellFormed v =
    (g : Fields) × (ns : Fields) × (v ≡ dict g)
    × (get "nodes" (items g) ≡ dict ns)
    × WellFormedParts (items g) (items ns)
