-- ===== src/Flows/Interpreter/Nodes/Vars.antt =====
-- The handlers that set, unset and test variables, and the two that send them out: `set_vars`,
-- `unset_vars`, `conditions`, `send_sms` and `request`.
use owen_main.Common.{
  ℕ, zero, suc, String, List, [], ◌∷◌, ◌&&◌, Option, none, some, str_eq, leb, ltb, not,
  if◌then◌else◌,
}
use owen_main.Common.Json.{
  Value, null, str, list, dict, Fields, end, field, Dict, elements, get, has, truthy, as_dict,
}
use owen_main.Common.Store.{set_item, remove}
use owen_main.Common.Print.{str_of}
use owen_main.Common.Chars.{strip}
use owen_main.Flows.Variables.Template.{interpolate}
use owen_main.Flows.Variables.Conditions.{evaluate_conditions}
use owen_main.Flows.Interpreter.Effects.{Call, World}
use owen_main.Flows.Interpreter.Machine.{
  Exec, ◌>>=◌, ◌>>◌, pure, gets, modify, attempt, perform, ask, set_extra, snap,
}
use owen_main.Flows.Interpreter.Hours.{or_else}
use owen_main.Flows.Interpreter.Nodes.Parts.{number, texts}

-- A dict as a value.
abbrev pub as_value : Dict → Value
as_value d = dict (fields d)
  where
    fields : Dict → Fields
    fields [] = end
    fields ((k, v) ∷ d) = field k v (fields d)

-- A text is interpolated, another value is stored as it is.
unfoldable pub assigned : Value → Dict → Value
assigned (str s) vars = str (interpolate (str s) vars)
assigned v vars = v

-- The assignments in order, with the snapshot of what was set.
unfoldable pub assign_all : Dict → Dict → Dict → Dict × Dict
assign_all [] vars shown = (vars, shown)
assign_all ((name, value) ∷ cfg) vars shown =
    let v = assigned value vars in
    let skip = str_eq name "" in
    assign_all cfg (if skip then vars else set_item name v vars)
      (if skip then shown else set_item name (str (snap v)) shown)

config_of : Value → Dict
config_of v = elim (as_dict v) [ none ↦ [] | some d ↦ d ]

unfoldable pub h_set_vars : Dict → Exec (Option String)
unfolding config_of
h_set_vars node = do
  vars ← gets (λ s. s.variables)
  let done = assign_all (config_of (get "vars" node)) vars []
  modify (λ s. record s { variables = done.0 })
  set_extra (("vars_set", as_value done.1) ∷ [])
  pure (some "default")

-- The names are removed in order; one that is not there is passed over.
unfoldable pub unset_all : List Value → Dict → List String → Dict × List String
unset_all [] vars removed = (vars, removed)
unset_all (n ∷ ns) vars removed =
    let key = if truthy n then str_of n else "" in
    let there = not (str_eq key "") && has key vars in
    unset_all ns (if there then remove key vars else vars)
      (if there then key ∷ removed else removed)

names_of : Value → List Value
names_of (list vs) = elements vs
names_of _ = []

unfoldable pub h_unset_vars : Dict → Exec (Option String)
unfolding names_of
h_unset_vars node = do
  vars ← gets (λ s. s.variables)
  let done = unset_all (names_of (get "names" node)) vars []
  modify (λ s. record s { variables = done.0 })
  set_extra (("vars_unset", texts (backwards done.1 [])) ∷ [])
  pure (some "default")
  where
    backwards : List String → List String → List String
    backwards [] acc = acc
    backwards (x ∷ xs) acc = backwards xs (x ∷ acc)

nth_row : List Value → ℕ → Dict
nth_row [] i = []
nth_row (v ∷ vs) zero = config_of v
nth_row (v ∷ vs) (suc i) = nth_row vs i

unfoldable pub chosen : List Value → Option (ℕ × String × String) → Exec (Option String)
unfolding nth_row config_of
chosen rows none = do
  set_extra (("matched_row", null) ∷ ("port", str "else") ∷ [])
  pure (some "else")
chosen rows (some (i, port, actual)) = do
  set_extra (
      ("matched_row", number i)
      ∷ ("port", str port)
      ∷ ("variable", str (snap (get "variable" (nth_row rows i))))
      ∷ ("operator", str (snap (get "operator" (nth_row rows i))))
      ∷ ("actual", str (snap (str actual)))
      ∷ [])
  pure (some port)

module _ (w : World) where
  unfoldable pub h_conditions : Dict → Exec (Option String)
  unfolding names_of chosen
  h_conditions node = do
    vars ← gets (λ s. s.variables)
    let rows = names_of (get "rows" node)
    chosen rows (evaluate_conditions w.matching 0 rows vars)

  unfoldable pub send_text : String → String → Exec (Unit {0})
  send_text to body =
      if str_eq to ""
      then pure tt
      else if str_eq body ""
      then pure tt
      else if w.has_sms
      then attempt (perform w (Call.send_sms to body)) (pure tt)
      else pure tt

  -- The port is `default` whatever becomes of the message.
  unfoldable pub h_send_sms : Dict → Exec (Option String)
  unfolding send_text
  h_send_sms node = do
    vars ← gets (λ s. s.variables)
    let to = strip (interpolate (or_else (get "to" node) (str "{{caller_number}}")) vars)
    let body = strip (interpolate (get "body" node) vars)
    set_extra (("sms_to", str (snap (str to))) ∷ ("sms_body", str (snap (str body))) ∷ [])
    send_text to body
    pure (some "default")

  request_method : Dict → String
  request_method node =
      let m = w.upper (str_of (or_else (get "method" node) (str "GET"))) in
      if str_eq m "GET" then m else if str_eq m "POST" then m else "GET"

  request_headers : Dict → Dict → Dict → Dict
  request_headers [] vars out = out
  request_headers ((k, v) ∷ raw) vars out = request_headers raw vars (
      if str_eq k ""
      then out
      else set_item (interpolate (str k) vars) (str (interpolate v vars)) out)

  -- Status and body: 0 and none for a missing url or seam, and for a transport error.
  unfoldable pub exchange : String → String → Dict → Value → Exec (ℕ × Value)
  exchange method url headers body =
      if str_eq url ""
      then pure (0, null)
      else if w.has_http
      then attempt (ask w (Call.http_request method url headers body) w.http_result)
          (pure (0, null))
      else pure (0, null)

  unfoldable pub h_request : Dict → Exec (Option String)
  unfolding config_of request_method request_headers
  h_request node = do
    vars ← gets (λ s. s.variables)
    let url = strip (interpolate (get "url" node) vars)
    let headers = request_headers (config_of (get "headers" node)) vars []
    answer ← exchange (request_method node) url headers (assigned (get "body" node) vars)
    modify (λ s. record s {
      variables =
          set_item "request.body" answer.1
            (set_item "request.status" (number answer.0) s.variables);
    })
    set_extra (("request_status", number answer.0) ∷ ("request_url", str (snap (str url))) ∷ [])
    pure (some (if leb 200 answer.0 && ltb answer.0 300 then "success" else "failure"))
