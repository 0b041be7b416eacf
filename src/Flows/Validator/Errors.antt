-- ===== src/Flows/Validator/Errors.antt =====
-- The hard errors of backend/app/flows/validator.py, in the order in which it reports them.
use owen_main.Common.{
  String, List, [], ◌∷◌, ◌++◌, Bool, false, none, some, Result, ok, raise, type_error, ◌>>=◌,
  collect, contains, sorted, if◌then◌else◌,
}
use owen_main.Common.Json.{Value, null, str, Dict, get, has, as_dict, hashable, is_text}
use owen_main.Flows.Validator.Ports.{node_types, allowed_ports, edges}

-- What `validate_graph` appends to `errors`; each carries what its message prints.
pub data Problem : Type 0 where
  graph_not_object graph_has_no_nodes no_entry_node : Problem
  node_not_object : String → Problem
  many_entry_nodes : List String → Problem
  unknown_type : String → Value → Problem
  invalid_port : String → String → String → Problem
  unknown_target : String → String → Value → Problem
  unknown_fallback : Value → Problem

-- `target in nodes`, where the target is hashable: the keys are texts, so nothing else is in.
unfoldable pub resolves : Value → Dict → Bool
resolves (str s) nodes = has s nodes
resolves _ nodes = false

-- The per-node shape guard.
unfoldable pub shape_errors : Dict → List Problem
shape_errors [] = []
shape_errors ((nid, node) ∷ rest) = elim (as_dict node) [
  | none ↦ node_not_object nid ∷ shape_errors rest
  | some _ ↦ shape_errors rest
]

-- The items of a node, which is a dict once the shape guard has passed.
unfoldable pub node_items : Value → Dict
node_items v = elim (as_dict v) [ none ↦ [] | some d ↦ d ]

-- `[nid for nid, n in nodes.items() if n.get("type") == "entry"]`
unfoldable pub entry_ids : Dict → List String
entry_ids [] = []
entry_ids ((nid, node) ∷ rest) =
    if is_text "entry" (get "type" (node_items node)) then nid ∷ entry_ids rest else entry_ids rest

unfoldable pub entry_errors : List String → List Problem
entry_errors [] = no_entry_node ∷ []
entry_errors (_ ∷ []) = []
entry_errors (e ∷ f ∷ es) = many_entry_nodes (sorted (e ∷ f ∷ es)) ∷ []

unfoldable pub port_errors : String → String → List String → Dict → List Problem
port_errors nid ntype allowed [] = []
port_errors nid ntype allowed ((port, _) ∷ rest) =
    let later = port_errors nid ntype allowed rest in
    if contains port allowed then later else invalid_port nid ntype port ∷ later

-- `ntype not in NODE_TYPES` raises on an unhashable type.
unfoldable pub type_errors : String → Value → Dict → Result (List Problem)
type_errors nid (str ntype) node =
    if contains ntype node_types
    then ok (port_errors nid ntype (allowed_ports ntype node) (edges node))
    else ok (unknown_type nid (str ntype) ∷ [])
type_errors nid v node = if hashable v then ok (unknown_type nid v ∷ []) else raise type_error

-- `target not in nodes` raises on an unhashable target.
unfoldable pub target_error : Dict → String → String × Value → Result (List Problem)
target_error nodes nid (port, target) =
    if hashable target
    then ok (if resolves target nodes then [] else unknown_target nid port target ∷ [])
    else raise type_error

unfoldable pub node_errors : Dict → String × Value → Result (List Problem)
node_errors nodes (nid, v) = do
  types ← type_errors nid (get "type" (node_items v)) (node_items v)
  targets ← collect (target_error nodes nid) (edges (node_items v))
  ok (types ++ targets)

unfoldable pub fallback_errors : Dict → Value → Result (List Problem)
fallback_errors nodes null = ok []
fallback_errors nodes v =
    if hashable v
    then ok (if resolves v nodes then [] else unknown_fallback v ∷ [])
    else raise type_error

-- All passes after the shape guard.
unfoldable pub graph_errors : Dict → Dict → Result (List Problem)
graph_errors g nodes = do
  per_node ← collect (node_errors nodes) nodes
  fallback ← fallback_errors nodes (get "default_fallback" g)
  ok (entry_errors (entry_ids nodes) ++ (per_node ++ fallback))
