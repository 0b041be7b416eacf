-- ===== src/Flows/Interpreter/Run.antt =====
-- `run`, `_run_graph` and the events of backend/app/flows/interpreter.py.
use owen_main.Common.{
  ℕ, zero, suc, String, List, [], ◌∷◌, ◌++◌, Bool, true, false, ◌&&◌, ◌||◌, Option, none, some,
  str_eq, contains, ltb, length, Result, ok, raise, type_error, if◌then◌else◌,
}
use owen_main.Common.Json.{Value, null, str, Dict, get, has, hashable, as_dict, truthy, is_text}
use owen_main.Flows.Validator.Ports.{edges}
use owen_main.Flows.Validator.Errors.{entry_ids}
use owen_main.Flows.Interpreter.Effects.{
  Reason, empty_graph, no_entry, max_steps, dangling_edge, terminal, dial_completed,
  unrouted_hangup, error, stood_down, Routed, to_edge, to_fallback, to_hangup, at_terminal,
  handed_over, node_entered, node_left, call_summary, Call, emit, World,
}
use owen_main.Flows.Interpreter.Machine.{
  Machine, Exec, ◌>>=◌, ◌>>◌, pure, raising, lift, gets, modify, attempt, perform, safe_hangup,
  error_port,
}
use owen_main.Flows.Interpreter.Nodes.{run_node}

abbrev pub taken_over : String
taken_over = "taken_over"

abbrev pub transferred : String
transferred = "transferred"

unfoldable pub post_emit_types : List String
post_emit_types = "set_vars" ∷ "unset_vars" ∷ "conditions" ∷ "send_sms" ∷ "request" ∷ []

-- `x in S` for a set of texts; a value that cannot be hashed raises.
unfoldable pub in_texts : Value → List String → Result Bool
in_texts (str s) texts = ok (contains s texts)
in_texts v texts = if hashable v then ok false else raise type_error

-- `_entry_id`: the first node of type "entry".
unfoldable pub entry_id : Dict → Option String
entry_id nodes = elim (entry_ids nodes) [ [] ↦ none | nid ∷ _ ↦ some nid ]

-- `_resolve`; `null` is an unwired port.
unfoldable pub resolve : Dict → Option String → Value
resolve node none = null
resolve node (some port) = get port (edges node)

-- `fallback if isinstance(fallback, str) and fallback in nodes else None`
unfoldable pub fallback_of : Value → Dict → Option String
fallback_of (str s) nodes = if has s nodes then some s else none
fallback_of _ nodes = none

-- What a round of the loop decides: the run is over, or it goes on at a node, with the fallback
-- that is left.
pub data Next : Type 0 where
  ended : Reason → Next
  onward : Value → Option String → Next

unfoldable pub stands_down : Option String → Bool
stands_down none = false
stands_down (some port) = str_eq port taken_over || str_eq port transferred

unfoldable pub is_null : Value → Bool
is_null null = true
is_null _ = false

unfoldable pub dial_answered : Value → Option String → Bool
dial_answered ntype none = false
dial_answered ntype (some port) = is_text "dial" ntype && str_eq port "answered"

unfoldable pub port_text : Option String → String
port_text none = ""
port_text (some p) = p

-- The bookkeeping of a visit: the true number of steps, the last node, and the first 50 ids.
abbrev pub entering : String → Machine → Machine
entering nid s = record s {
  steps = suc s.steps;
  last_node = some nid;
  path = if ltb (length s.path) 50 then s.path ++ (nid ∷ []) else s.path;
}

module _ (w : World) where
  -- `_emit_transition`: a failure of the sink leaves the run.
  unfoldable pub emit_transition : ℕ → String → Value → Option Dict → Exec (Unit {0})
  emit_transition step nid ntype extra = perform w (emit (node_entered step nid ntype extra))

  -- `_emit_exit`: a failure is swallowed.
  unfoldable pub emit_exit :
      ℕ → String → Value → Option String → Routed → Value → Bool → Exec (Unit {0})
  emit_exit step nid ntype port routed next errored = do
    extra ← gets (λ s. s.event_extra)
    attempt (perform w (emit (node_left step nid ntype port routed next errored extra))) (pure tt)

  -- `_emit_summary`
  unfoldable pub emit_summary : Reason → Exec (Unit {0})
  emit_summary reason = do
    s ← gets (λ s. s)
    attempt (perform w (emit (call_summary reason s.steps s.path s.last_node))) (pure tt)

  -- `_fall` and what follows it: the one-shot fallback, or the final hangup.
  unfoldable pub fall : Reason → Option String → Exec Next
  fall reason none = do safe_hangup w; pure (ended reason)
  fall reason (some s) = pure (onward (str s) none)

  -- `_run_node`: the handlers are keyed by texts.
  unfoldable pub run_value : String → Value → Dict → Exec (Option String)
  run_value tz (str t) node = run_node w tz t node
  run_value tz v node = if truthy v && clash v then raising type_error else pure (some error_port)
    where
      clash : Value → Bool
      clash v = if hashable v then false else true

  -- The handler under `try`: the port, and whether it raised.
  unfoldable pub guarded_node : String → Value → Dict → Exec (Option String × Bool)
  guarded_node tz ntype node =
      attempt (do port ← run_value tz ntype node; pure (port, false)) (pure (some error_port, true))

  -- The routing of a port that neither stood down nor ended the call.
  unfoldable pub route :
      ℕ → String → Value → Dict → Option String → Bool → Option String → Exec Next
  route step nid ntype node port errored fallback =
      let next = resolve node port in
      let wired : Exec Next = (do
        emit_exit step nid ntype port to_edge next errored
        pure (onward next fallback)) in
      let unwired : Exec Next = (do
        emit_exit step nid ntype port (elim fallback [ none ↦ to_hangup | some _ ↦ to_fallback ])
            (elim fallback [ none ↦ null | some s ↦ str s ]) errored
        fall (if dial_answered ntype port then dial_completed else unrouted_hangup) fallback) in
      if is_null next then unwired else wired

  -- What follows the handler.
  unfoldable pub depart :
      ℕ → String → Value → Dict → Option String × Bool → Option String → Exec Next
  depart step nid ntype node (port, errored) fallback =
      if stands_down port
      then (do
        emit_exit step nid ntype port (handed_over (port_text port)) null errored
        pure (ended (stood_down (port_text port))))
      else if is_text "voicemail" ntype || is_text "hangup" ntype
      then (do emit_exit step nid ntype port at_terminal null errored; pure (ended terminal))
      else route step nid ntype node port errored fallback

  -- From the entry event to the outcome of the handler, with its event.
  unfoldable pub handle : String → ℕ → String → Dict → Exec (Option String × Bool)
  handle tz step nid node = do
    let ntype = get "type" node
    post ← lift (in_texts ntype post_emit_types)
    if post then pure tt else emit_transition step nid ntype none
    modify (λ s. record s { event_extra = none })
    outcome ← guarded_node tz ntype node
    extra ← gets (λ s. s.event_extra)
    if post then emit_transition step nid ntype extra else pure tt
    pure outcome

  unfoldable pub visit_node : String → ℕ → String → Dict → Option String → Exec Next
  visit_node tz step nid node fallback = do
    modify (entering nid)
    outcome ← handle tz step nid node
    depart step nid (get "type" node) node outcome fallback

  unfoldable pub at_node : String → ℕ → String → Option String → Option Dict → Exec Next
  at_node tz step nid fallback none = fall dangling_edge fallback
  at_node tz step nid fallback (some node) = visit_node tz step nid node fallback

  -- One round at `current`: `nodes.get(current)` raises on a value that cannot be hashed, and what
  -- is no node falls to the fallback.
  unfoldable pub round : String → Dict → ℕ → Value → Option String → Exec Next
  round tz nodes step (str nid) fallback = at_node tz step nid fallback (as_dict (get nid nodes))
  round tz nodes step v fallback =
      if hashable v then fall dangling_edge fallback else raising type_error

  unfoldable pub go_on : (Value → Option String → Exec Reason) → Next → Exec Reason
  go_on rest (ended reason) = pure reason
  go_on rest (onward v fallback) = rest v fallback

  -- The `while` loop, with the rounds that `max_steps` leaves; `step` counts the rounds done.
  unfoldable pub loop : ℕ → String → Dict → ℕ → Value → Option String → Exec Reason
  loop zero tz nodes step current fallback = do safe_hangup w; pure max_steps
  loop (suc left) tz nodes step current fallback = do
    next ← round tz nodes (suc step) current fallback
    go_on (loop left tz nodes (suc step)) next

  -- `on_start`, best effort
  unfoldable pub pin_version : Exec (Unit {0})
  pin_version = if w.has_on_start then attempt (perform w Call.pin_version) (pure tt) else pure tt

  unfoldable pub start_at : ℕ → String → Dict → Option String → Option String → Exec Reason
  start_at limit tz nodes fallback none = do safe_hangup w; pure no_entry
  start_at limit tz nodes fallback (some nid) = loop limit tz nodes 0 (str nid) fallback

  unfoldable pub start_graph : ℕ → String → Dict → Option Dict → Exec Reason
  start_graph limit tz graph none = do safe_hangup w; pure empty_graph
  start_graph limit tz graph (some []) = do safe_hangup w; pure empty_graph
  start_graph limit tz graph (some (n ∷ ns)) =
      start_at limit tz (n ∷ ns) (fallback_of (get "default_fallback" graph) (n ∷ ns))
        (entry_id (n ∷ ns))

  -- `_run_graph`, from the version pin on.
  unfoldable pub run_graph : ℕ → String → Dict → Exec Reason
  run_graph limit tz graph = do
    pin_version
    start_graph limit tz graph (as_dict (get "nodes" graph))

  unfoldable pub summarized : Result Reason → Exec Reason
  summarized (ok reason) = do emit_summary reason; pure reason
  summarized (raise e) = do emit_summary error; raising e

  -- `run`: the summary is emitted on every way out.
  unfoldable pub run : ℕ → String → Dict → Exec Reason
  run limit tz graph s = let (r, s') = run_graph limit tz graph s in summarized r s'
