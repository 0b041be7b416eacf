-- ===== src/Flows/Validator/Ports.antt =====
-- The node types of backend/app/flows/validator.py, their ports, and a node's wired edges.
use owen_main.Common.{String, List, [], ◌∷◌, ◌++◌, none, some, str_eq, if◌then◌else◌}
use owen_main.Common.Json.{Value, list, Values, nil, cons, Dict, get, truthy, as_dict}
use owen_main.Common.Print.{str_of}

unfoldable pub node_types : List String
node_types =
    "entry" ∷ "play" ∷ "hours" ∷ "menu" ∷ "dial" ∷ "voicemail" ∷ "ai_agent" ∷ "hangup" ∷ "set_vars"
    ∷ "unset_vars" ∷ "conditions" ∷ "send_sms" ∷ "request" ∷ []

unfoldable pub menu_ports : List String
menu_ports =
    "0" ∷ "1" ∷ "2" ∷ "3" ∷ "4" ∷ "5" ∷ "6" ∷ "7" ∷ "8" ∷ "9" ∷ "*" ∷ "#" ∷ "timeout" ∷ "invalid"
    ∷ "default" ∷ []

abbrev Table : Type 0
Table = List (String × List String)

find : String → Table → List String
find k [] = []
find k ((j, ports) ∷ t) = if str_eq j k then ports else find k t

allowed_table : Table
unfolding menu_ports
allowed_table =
    ("entry", "default" ∷ [])
    ∷ ("play", "default" ∷ [])
    ∷ ("hours", "open" ∷ "closed" ∷ [])
    ∷ ("menu", menu_ports)
    ∷ ("dial", "answered" ∷ "noanswer" ∷ "busy" ∷ "failed" ∷ [])
    ∷ ("voicemail", "default" ∷ [])
    ∷ ("ai_agent", "default" ∷ "transfer" ∷ "complete" ∷ "failed" ∷ [])
    ∷ ("hangup", [])
    ∷ ("set_vars", "default" ∷ [])
    ∷ ("unset_vars", "default" ∷ [])
    ∷ ("send_sms", "default" ∷ [])
    ∷ ("request", "success" ∷ "failure" ∷ [])
    ∷ ("conditions", [])
    ∷ []

expected_table : Table
expected_table =
    ("entry", "default" ∷ [])
    ∷ ("play", "default" ∷ [])
    ∷ ("hours", "open" ∷ "closed" ∷ [])
    ∷ ("dial", "answered" ∷ [])
    ∷ ("ai_agent", "default" ∷ "transfer" ∷ "complete" ∷ "failed" ∷ [])
    ∷ ("set_vars", "default" ∷ [])
    ∷ ("unset_vars", "default" ∷ [])
    ∷ ("send_sms", "default" ∷ [])
    ∷ ("request", "success" ∷ "failure" ∷ [])
    ∷ []

-- The port of one row of a `conditions` node; a malformed row gives none.
row_port : Value → List String
row_port v = elim (as_dict v) [
  | none ↦ []
  | some row ↦ if truthy (get "port" row) then str_of (get "port" row) ∷ [] else []
]

row_ports : Values → List String
unfolding row_port
row_ports nil = []
row_ports (cons v vs) = row_port v ++ row_ports vs

rows_of : Value → List String
unfolding row_ports
rows_of (list vs) = row_ports vs
rows_of _ = []

-- A set in the source; here a list, read by membership, and sorted without repeats by the warnings.
unfoldable pub condition_ports : Dict → List String
unfolding rows_of
condition_ports node = "else" ∷ rows_of (get "rows" node)

-- `condition_ports(node) if ntype == "conditions" else ALLOWED_PORTS[ntype]`
unfoldable pub allowed_ports : String → Dict → List String
unfolding find allowed_table
allowed_ports ntype node =
    if str_eq ntype "conditions" then condition_ports node else find ntype allowed_table

unfoldable pub expected_ports : String → Dict → List String
unfolding find expected_table
expected_ports ntype node =
    if str_eq ntype "conditions" then condition_ports node else find ntype expected_table

-- `_edges`: the node's `next` map, or no edges where it is not a dict.
unfoldable pub edges : Dict → Dict
edges node = elim (as_dict (get "next" node)) [ none ↦ [] | some d ↦ d ]
