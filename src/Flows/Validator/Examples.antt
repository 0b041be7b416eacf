-- ===== src/Flows/Validator/Examples.antt =====
-- Small graphs through the validator.
use owen_main.Common.{[], ◌∷◌, ◌≡◌, refl, ◌↔◌, inl, true, none, some, ok, contains, In}
use owen_main.Common.Json.{Value, str, dict, end, field, Dict, keys, get, has, as_dict}
use owen_main.Flows.Validator.{ValidationResult, passed, validate_graph}
use owen_main.Flows.Validator.Ports.{node_types, allowed_ports, edges}
use owen_main.Flows.Validator.Errors.{node_items}
use owen_main.Flows.Validator.Warnings.{successors, target_ids, unreachable_ids}
use owen_main.Flows.Validator.Cycles.{
  find_cycle, search_from, visit, visit_targets, color_of, from_first,
}
use owen_main.Flows.Validator.WellFormed.{WellFormed}
use owen_main.Flows.Validator.Acceptance.{accepted-WellFormed, WellFormed-accepted}
use owen_main.Flows.Validator.Reachability.{unreachable_ids_iff}
use owen_main.Flows.Validator.Worklist.{Reachable}
use owen_main.Flows.Validator.CycleSearch.{IsCycle, find_cycle-IsCycle, Walk}
use owen_main.Flows.Validator.Acyclic.{find_cycle_complete}

-- An entry that leads to a hangup, and a node that nothing leads to.
abbrev small : Value
small = dict (
    field "nodes"
      (dict (
        field "e"
          (dict
            (field "type" (str "entry") (field "next" (dict (field "default" (str "h") end)) end)))
          (field "h" (dict (field "type" (str "hangup") end)) end)))
      end)

abbrev small_nodes : Dict
small_nodes =
    (
      "e",
      dict (field "type" (str "entry") (field "next" (dict (field "default" (str "h") end)) end)),
    )
    ∷ ("h", dict (field "type" (str "hangup") end))
    ∷ ("lost", dict (field "type" (str "hangup") end))
    ∷ []

-- Two menus that lead to one another.
abbrev ring : Dict
ring =
    ("e", dict (field "next" (dict (field "1" (str "m") end)) end))
    ∷ ("m", dict (field "next" (dict (field "2" (str "e") end)) end))
    ∷ []

ring_cycle : find_cycle ring ≡ some ("e" ∷ "m" ∷ "e" ∷ [])
unfolding find_cycle search_from visit visit_targets color_of from_first successors target_ids edges
    node_items get has as_dict
ring_cycle = refl

find_cycle-IsCycle_example : IsCycle ring ("e" ∷ "m" ∷ "e" ∷ [])
find_cycle-IsCycle_example = find_cycle-IsCycle ring ("e" ∷ "m" ∷ "e" ∷ []) ring_cycle

straight : find_cycle small_nodes ≡ none
unfolding find_cycle search_from visit visit_targets color_of from_first successors target_ids edges
    node_items get has as_dict
straight = refl

find_cycle_complete_example : ¬ Walk small_nodes "e" "e"
find_cycle_complete_example = find_cycle_complete small_nodes "e" straight

lost_is_node : In "lost" (keys small_nodes)
unfolding contains
lost_is_node = refl

unreachable_ids_iff_example :
    In "lost" (unreachable_ids small_nodes ("e" ∷ [])) ↔ (¬ Reachable small_nodes ("e" ∷ []) "lost")
unreachable_ids_iff_example = unreachable_ids_iff small_nodes ("e" ∷ []) "lost" lost_is_node

small-WellFormed : WellFormed small
unfolding get has as_dict edges node_types allowed_ports contains node_items
small-WellFormed = (
  _,
  _,
  refl,
  refl,
  record {
    one_entry = ([], ("e", _), ("h", _) ∷ [], refl, refl, tt, ((λ q. cc q), tt));
    nodes_fit = (
      (_, refl, "entry", refl, refl, ((refl, ("h", refl, refl)), tt)),
      ((_, refl, "hangup", refl, refl, tt), tt),
    );
    fallback_fits = inl refl;
  },
)

WellFormed-accepted_example :
    (r : ValidationResult) × (validate_graph small ≡ ok r) × (passed r ≡ true)
WellFormed-accepted_example = WellFormed-accepted small small-WellFormed

accepted-WellFormed_example : WellFormed small
accepted-WellFormed_example =
    accepted-WellFormed small WellFormed-accepted_example.0 WellFormed-accepted_example.1
      WellFormed-accepted_example.2
