-- ===== src/Flows/Validator/Warnings.antt =====
-- The warnings of backend/app/flows/validator.py: unwired ports, unreachable nodes, and the first
-- cycle that the depth-first search meets.
use owen_main.Common.{
  ℕ, zero, suc, ◌+◌, String, List, [], ◌∷◌, ◌++◌, Bool, true, false, ◌&&◌, contains, sorted, length,
  if◌then◌else◌,
}
use owen_main.Common.Json.{Value, str, Dict, get, has, keys, is_text}
use owen_main.Flows.Validator.Ports.{expected_ports, edges}
use owen_main.Flows.Validator.Errors.{node_items}

pub data Warning : Type 0 where
  menu_unwired : String → Warning
  unwired_port : String → Value → String → Warning
  unreachable_node : String → Warning
  has_cycle : List String → Warning

-- Expected ports are a set in the source.
distinct : List String → List String
distinct [] = []
distinct (k ∷ ks) = let rest = distinct ks in if contains k ks then rest else k ∷ rest

missing_ports : String → Value → Dict → List String → List Warning
missing_ports nid ntype wired [] = []
missing_ports nid ntype wired (port ∷ ports) =
    let later = missing_ports nid ntype wired ports in
    if has port wired then later else unwired_port nid ntype port ∷ later

expected_of : Value → Dict → List String
expected_of (str ntype) node = expected_ports ntype node
expected_of _ node = []

node_unwired : String → Value → Dict → List Warning
unfolding missing_ports expected_of distinct
node_unwired nid ntype node =
    if is_text "menu" ntype && no_edges (edges node)
    then menu_unwired nid ∷ []
    else missing_ports nid ntype (edges node) (sorted (distinct (expected_of ntype node)))
  where
    no_edges : Dict → Bool
    no_edges [] = true
    no_edges (_ ∷ _) = false

-- `_warn_unwired_ports`
unfoldable pub unwired_warnings : Dict → List Warning
unfolding node_unwired
unwired_warnings [] = []
unwired_warnings ((nid, v) ∷ rest) =
    node_unwired nid (get "type" (node_items v)) (node_items v) ++ unwired_warnings rest

-- The ids that a node's edges lead to, for the targets that are nodes.
unfoldable pub target_ids : Dict → Dict → List String
target_ids nodes [] = []
target_ids nodes ((_, str t) ∷ rest) =
    let later = target_ids nodes rest in if has t nodes then t ∷ later else later
target_ids nodes ((_, _) ∷ rest) = target_ids nodes rest

unfoldable pub successors : Dict → String → List String
successors nodes nid = target_ids nodes (edges (node_items (get nid nodes)))

-- `stack.append(target)` for each target not seen; the top of the stack is the head.
unfoldable pub push_unseen : List String → List String → List String → List String
push_unseen [] seen stack = stack
push_unseen (t ∷ ts) seen stack = push_unseen ts seen (if contains t seen then stack else t ∷ stack)

-- The `while stack` loop of `_warn_unreachable`, one round for each unit of fuel.
unfoldable pub reach : ℕ → Dict → List String → List String → List String
reach zero nodes stack seen = seen
reach (suc f) nodes [] seen = seen
reach (suc f) nodes (cur ∷ stack) seen =
    let old = contains cur seen in
    reach f nodes (if old then stack else push_unseen (successors nodes cur) (cur ∷ seen) stack)
      (if old then seen else cur ∷ seen)

-- Each edge pushes its target at most once, so the rounds are at most the seeds and the edges.
unfoldable pub edge_count : Dict → Dict → ℕ
edge_count nodes [] = 0
edge_count nodes ((_, v) ∷ rest) =
    length (target_ids nodes (edges (node_items v))) + edge_count nodes rest

unfoldable pub fallback_seeds : Value → Dict → List String
fallback_seeds (str s) nodes = if has s nodes then s ∷ [] else []
fallback_seeds _ nodes = []

unfoldable pub reverse_onto : List String → List String → List String
reverse_onto [] acc = acc
reverse_onto (x ∷ xs) acc = reverse_onto xs (x ∷ acc)

unfoldable pub reached : Dict → List String → List String
reached nodes seeds = reach (suc (length seeds + edge_count nodes nodes)) nodes seeds []

unfoldable pub not_among : List String → List String → List String
not_among seen [] = []
not_among seen (k ∷ ks) =
    let later = not_among seen ks in if contains k seen then later else k ∷ later

-- The ids that `_warn_unreachable` names; the stack starts with the last seed on top.
unfoldable pub unreachable_ids : Dict → List String → List String
unfolding not_among reverse_onto
unreachable_ids nodes seeds =
    not_among (reached nodes (reverse_onto seeds [])) (sorted (keys nodes))

as_unreachable : List String → List Warning
as_unreachable [] = []
as_unreachable (nid ∷ nids) = unreachable_node nid ∷ as_unreachable nids

unfoldable pub unreachable_warnings : Dict → List String → Value → List Warning
unfolding as_unreachable
unreachable_warnings nodes entries fallback =
    as_unreachable (unreachable_ids nodes (entries ++ fallback_seeds fallback nodes))
