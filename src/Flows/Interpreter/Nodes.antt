-- ===== src/Flows/Interpreter/Nodes.antt =====
-- The node handlers of backend/app/flows/interpreter.py. A handler returns the chosen port, or
-- `none` from a node that ends the call. `Parts` has what they read from a node.
pub mod Parts
pub mod Vars
use owen_main.Common.{
  ℕ, String, List, [], ◌∷◌, Bool, true, false, ◌&&◌, Option, none, some, str_eq, contains, sorted,
  not, length, Result, ok, raise, is_some, if◌then◌else◌,
}
use owen_main.Common.Json.{
  Value, null, bool, int, float, str, list, dict, Dict, items, keys, get, has, truthy, as_dict,
  is_text,
}
use owen_main.Common.Store.{set_item, update}
use owen_main.Common.Print.{str_of}
use owen_main.Common.Chars.{strip}
use owen_main.Flows.Validator.Ports.{edges}
use owen_main.Flows.Variables.Template.{interpolate}
use owen_main.Flows.Interpreter.Effects.{Call, World}
use owen_main.Flows.Interpreter.Machine.{
  Machine, Exec, ◌>>=◌, ◌>>◌, pure, lift, gets, modify, attempt, perform, ask, set_extra, rec_name,
  error_port, snap, port_label,
}
use owen_main.Flows.Interpreter.Nodes.Parts.{
  media_key, media_of, first_some, interp, get_default, texts, number, or_null, menu_options,
  operator_list,
}
use owen_main.Flows.Interpreter.Nodes.Vars.{
  h_set_vars, h_unset_vars, h_conditions, h_send_sms, h_request,
}
use owen_main.Flows.Interpreter.Hours.{or_else, hours_config, schedule_of, zone_of, evaluate_hours}

module _ (w : World) where
  unfoldable pub h_entry : Exec (Option String)
  h_entry = do perform w Call.answer; pure (some "default")

  -- `_play_to_completion`: the blocking call where the client has one.
  unfoldable pub play_to_completion : String → Exec (Unit {0})
  play_to_completion media =
      if w.has_play_and_wait
      then perform w (Call.play_and_wait media)
      else perform w (Call.play media)

  record_first : Dict → Exec (Unit {0})
  record_first node =
      if truthy (get "record" node)
      then (do n ← rec_name; perform w (Call.record_call n))
      else pure tt

  unfoldable pub h_play : Dict → Exec (Option String)
  unfolding play_to_completion record_first
  h_play node = do
    record_first node
    vars ← gets (λ s. s.variables)
    let media = interp (media_of node) vars
    if str_eq media "" then pure tt else play_to_completion media
    set_extra (
        ("played", bool (not (str_eq media "")))
        ∷ ("media", if str_eq media "" then null else str (snap (str media)))
        ∷ [])
    pure (some "default")

  config_dict : Value → Dict
  config_dict v = elim (as_dict v) [ none ↦ [] | some d ↦ d ]

  hours_configured : Dict → Bool
  hours_configured cfg = elim (as_dict (schedule_of cfg)) [
    | none ↦ false
    | some schedule ↦ elim schedule [ [] ↦ false | _ ∷ _ ↦ true ]
  ]

  hours_extra : Bool → Value → Dict → Dict
  unfolding hours_configured
  hours_extra is_open tz cfg =
      let shown = w.time_text tz in
      ("hours_open", bool is_open)
      ∷ ("hours_tz", str (str_of tz))
      ∷ ("hours_local_time", elim shown [ none ↦ null | some t ↦ str t.0 ])
      ∷ ("hours_dow", elim shown [ none ↦ null | some t ↦ str t.1 ])
      ∷ ("hours_configured", bool (hours_configured cfg))
      ∷ []

  unfoldable pub h_hours : String → Dict → Exec (Option String)
  unfolding hours_extra config_dict
  h_hours business_tz node = do
    is_open ← lift (evaluate_hours w node business_tz)
    let cfg = config_dict (hours_config node)
    set_extra (hours_extra is_open (zone_of cfg node business_tz) cfg)
    pure (some (if is_open then "open" else "closed"))

  -- The port of a menu node for the digits that were read.
  unfoldable pub menu_port : Option String → Dict → String
  menu_port none wired = "timeout"
  menu_port (some digit) wired =
      if str_eq digit ""
      then "timeout"
      else if has digit wired
      then digit
      else if has "invalid" wired
      then "invalid"
      else digit

  digits_or_empty : Option String → String
  digits_or_empty none = ""
  digits_or_empty (some d) = d

  unfoldable pub h_menu : Dict → Exec (Option String)
  unfolding digits_or_empty
  h_menu node = do
    vars ← gets (λ s. s.variables)
    let media = interp (media_of node) vars
    timeout_s ← lift (w.as_float (get_default "timeout" (number 5) node))
    max_digits ← lift (w.as_int (get_default "max_digits" (number 1) node))
    digit ← ask w (Call.read_digit media timeout_s max_digits) w.digits
    modify (λ s. record s {
      variables = set_item "gather.digits" (str (digits_or_empty digit)) s.variables;
    })
    set_extra (
        ("digits", or_null (digits_or_empty digit))
        ∷ ("timeout_s", timeout_s)
        ∷ ("max_digits", max_digits)
        ∷ ("options", menu_options (edges node))
        ∷ [])
    pure (some (menu_port digit (edges node)))

  name_for_record : Dict → Exec (Option ℕ)
  name_for_record node =
      if truthy (get "record" node) then (do n ← rec_name; pure (some n)) else pure none

  -- `_dial_diagnostics`, merged over the other entries
  with_diagnostics : Dict → Exec (Unit {0})
  with_diagnostics extra = do
    h ← gets (λ s. s.history)
    set_extra (elim (w.diagnostics h) [ none ↦ extra | some d ↦ update extra d ])

  unreachable_ports : Dict → List String
  unreachable_ports wired =
      let busy = if truthy (get "busy" wired) then "busy" ∷ [] else [] in
      if truthy (get "noanswer" wired) then "noanswer" ∷ busy else busy

  warned : List String → Dict → Dict
  warned [] extra = extra
  warned (p ∷ ps) extra =
      if truthy (get "dial_answer_platform" extra)
      then set_item "dial_ports_unreachable" (texts (p ∷ ps)) extra
      else extra

  -- `_warn_if_ports_unreachable`
  warn_ports : Dict → Exec (Unit {0})
  unfolding warned unreachable_ports
  warn_ports node = modify (λ s. record s {
    event_extra = elim s.event_extra [
      | none ↦ none
      | some extra ↦ some (warned (unreachable_ports (edges node)) extra)
    ];
  })

  unfoldable pub dial_operators :
      Dict → Value → Value → Option ℕ → List String → Exec (Option String)
  unfolding with_diagnostics
  dial_operators node timeout_s caller_id name [] = do
    set_extra (("dial_kind", str "operator") ∷ ("dial_operators", number 0) ∷ [])
    pure (some error_port)
  dial_operators node timeout_s caller_id name (o ∷ os) = do
    result ← ask w (Call.dial_operator (o ∷ os) caller_id timeout_s name) w.dial_result
    with_diagnostics (
        ("dial_kind", str "operator")
        ∷ ("dial_operators", number (length (o ∷ os)))
        ∷ ("dial_result", port_label (some result))
        ∷ ("dial_timeout_s", timeout_s)
        ∷ ("recorded", bool (is_some name))
        ∷ [])
    pure (some result)

  unfoldable pub dial_target : Dict → Value → Value → Option ℕ → String → Exec (Option String)
  unfolding with_diagnostics warn_ports
  dial_target node timeout_s caller_id name target =
      if str_eq target ""
      then (do
        set_extra (("dial_kind", str "number") ∷ ("dial_target", null) ∷ [])
        pure (some error_port))
      else (do
        result ← ask w (Call.dial_number target caller_id timeout_s name) w.dial_result
        with_diagnostics (
            ("dial_kind", str "number")
            ∷ ("dial_target", str (snap (str target)))
            ∷ ("dial_result", port_label (some result))
            ∷ ("dial_timeout_s", timeout_s)
            ∷ ("recorded", bool (is_some name))
            ∷ [])
        warn_ports node
        pure (some result))

  unfoldable pub h_dial : Dict → Exec (Option String)
  unfolding dial_operators dial_target name_for_record
  h_dial node = do
    timeout_s ← lift (w.as_float (get_default "timeout" (number 25) node))
    name ← name_for_record node
    vars ← gets (λ s. s.variables)
    if is_text "operator" (or_else (get "target_kind" node) (get "kind" node))
        then dial_operators node timeout_s (get "caller_id" node) name (operator_list node)
        else dial_target node timeout_s (get "caller_id" node) name
            (strip (interpolate (or_else (get "target" node) (get "number" node)) vars))

  unfoldable pub h_voicemail : Dict → Exec (Option String)
  h_voicemail node = do
    vars ← gets (λ s. s.variables)
    let media = interp (first_some (media_of node) (media_key node "greeting")) vars
    max_duration ← lift (w.as_float (get_default "max_duration" (float "120.0") node))
    max_silence ← lift (w.as_float (get_default "max_silence" (float "5.0") node))
    name ← rec_name
    perform w (
        Call.voicemail (if str_eq media "" then none else some media) name max_duration max_silence)
    set_extra (
        ("recording_name", number name)
        ∷ ("greeting", bool (not (str_eq media "")))
        ∷ ("max_duration_s", max_duration)
        ∷ ("max_silence_s", max_silence)
        ∷ [])
    pure none

  unfoldable pub h_hangup : Exec (Option String)
  h_hangup = do perform w Call.hangup; pure none

  captured_names : Value → Value
  captured_names v = elim (as_dict v) [
    | none ↦ null
    | some d ↦ elim d [ [] ↦ null | e ∷ es ↦ texts (sorted (keys (e ∷ es))) ]
  ]

  dict_or_null : Value → Value
  dict_or_null v = elim (as_dict v) [ none ↦ null | some _ ↦ or_else v null ]

  -- The port of an agent's exit: the engine's `end_call` is the graph's `complete`.
  unfoldable pub agent_port : String → String
  agent_port port =
      if str_eq port "end_call" then "complete" else if str_eq port "" then "failed" else port

  unfoldable pub agent_answer : String × Value → Exec (Option String)
  unfolding captured_names dict_or_null config_dict
  agent_answer (port, answer) = do
    let result = config_dict answer
    set_extra (
        ("agent_port", port_label (some port))
        ∷ ("agent_turns", or_else (get "turns" result) (number 0))
        ∷ ("agent_captured", captured_names (get "captured" result))
        ∷ ("agent_metrics", dict_or_null (get "metrics" result))
        ∷ ("agent_recording", or_else (get "recording_name" result) null)
        ∷ [])
    pure (some (agent_port port))

  unfoldable pub asked_agent : Dict → Exec (Option (String × Value))
  asked_agent node =
      attempt (do a ← ask w (Call.run_agent node) w.agent_result; pure (some a)) (pure none)

  unfoldable pub agent_exit : Option (String × Value) → Exec (Option String)
  agent_exit none = pure (some "failed")
  agent_exit (some a) = agent_answer a

  unfoldable pub h_ai_agent : Dict → Exec (Option String)
  h_ai_agent node =
      if w.has_agent
      then (do answer ← asked_agent node; agent_exit answer)
      else pure (some "default")

  -- `_run_node` on a node type that is a text; the table of `_HANDLERS`.
  unfoldable pub run_node : String → String → Dict → Exec (Option String)
  run_node business_tz ntype node =
      if str_eq ntype "entry"
      then h_entry
      else if str_eq ntype "play"
      then h_play node
      else if str_eq ntype "hours"
      then h_hours business_tz node
      else if str_eq ntype "menu"
      then h_menu node
      else if str_eq ntype "dial"
      then h_dial node
      else if str_eq ntype "voicemail"
      then h_voicemail node
      else if str_eq ntype "hangup"
      then h_hangup
      else if str_eq ntype "ai_agent"
      then h_ai_agent node
      else if str_eq ntype "set_vars"
      then h_set_vars node
      else if str_eq ntype "unset_vars"
      then h_unset_vars node
      else if str_eq ntype "conditions"
      then h_conditions w node
      else if str_eq ntype "send_sms"
      then h_send_sms w node
      else if str_eq ntype "request"
      then h_request w node
      else pure (some error_port)
