-- ===== src/Flows/Interpreter/Quiet.antt =====
-- No node handler but those of `voicemail` and `hangup` ends the call, and none emits a summary.
use owen_main.Common.{
  ℕ, String, List, [], ◌∷◌, ◌≡◌, false, Option, none, some, inl, inr, str_eq, eq_iff, Bool-cases,
}
use owen_main.Common.Json.{Value, Dict}
use owen_main.Flows.Interpreter.Effects.{World, Call, emit, call_summary}
use owen_main.Flows.Interpreter.Nodes.Vars.{
  h_set_vars, h_unset_vars, h_conditions, h_send_sms, h_request, exchange, chosen, send_text,
}
use owen_main.Flows.Interpreter.Nodes.{
  h_entry, h_play, h_hours, h_menu, h_dial, h_voicemail, h_hangup, h_ai_agent, run_node,
  dial_operators, dial_target, asked_agent, agent_answer, agent_exit,
}
use owen_main.Flows.Interpreter.Traces.{Only, Only-else, Only-weaken, Quiet, Plain, only_rules}

pub Plain-of-Quiet : (c : Call) → Quiet c → Plain c
Plain-of-Quiet (emit (call_summary a b c d)) q = q
Plain-of-Quiet _ q = tt

module _ (w : World) where
  h_entry-Quiet : Only Quiet (h_entry w)
  unfolding h_entry
  h_entry-Quiet = search only_rules

  h_play-Quiet : (node : Dict) → Only Quiet (h_play w node)
  unfolding h_play
  h_play-Quiet node = search only_rules depth 12

  h_hours-Quiet : (tz : String) (node : Dict) → Only Quiet (h_hours w tz node)
  unfolding h_hours
  h_hours-Quiet tz node = search only_rules depth 12

  h_menu-Quiet : (node : Dict) → Only Quiet (h_menu w node)
  unfolding h_menu
  h_menu-Quiet node = search only_rules depth 12

  h_set_vars-Quiet : (node : Dict) → Only Quiet (h_set_vars node)
  unfolding h_set_vars
  h_set_vars-Quiet node = search only_rules depth 12

  h_unset_vars-Quiet : (node : Dict) → Only Quiet (h_unset_vars node)
  unfolding h_unset_vars
  h_unset_vars-Quiet node = search only_rules depth 12

  chosen-Quiet :
      (rows : List Value) (hit : Option (ℕ × String × String)) → Only Quiet (chosen rows hit)
  unfolding chosen
  chosen-Quiet rows none = search only_rules depth 12
  chosen-Quiet rows (some (i, port, actual)) = search only_rules depth 12

  h_conditions-Quiet : (node : Dict) → Only Quiet (h_conditions w node)
  unfolding h_conditions
  h_conditions-Quiet node = search (only_rules, chosen-Quiet) depth 12

  send_text-Quiet : (to body : String) → Only Quiet (send_text w to body)
  unfolding send_text
  send_text-Quiet to body = search only_rules depth 12

  h_send_sms-Quiet : (node : Dict) → Only Quiet (h_send_sms w node)
  unfolding h_send_sms
  h_send_sms-Quiet node = search (only_rules, send_text-Quiet) depth 12

  exchange-Quiet :
      (method url : String) (headers : Dict) (body : Value)
      → Only Quiet (exchange w method url headers body)
  unfolding exchange
  exchange-Quiet method url headers body = search only_rules depth 12

  h_request-Quiet : (node : Dict) → Only Quiet (h_request w node)
  unfolding h_request
  h_request-Quiet node = search (only_rules, exchange-Quiet) depth 12

  dial_operators-Quiet :
      (node : Dict) (timeout_s caller_id : Value) (name : Option ℕ) (ops : List String)
      → Only Quiet (dial_operators w node timeout_s caller_id name ops)
  unfolding dial_operators
  dial_operators-Quiet node timeout_s caller_id name [] = search only_rules depth 12
  dial_operators-Quiet node timeout_s caller_id name (o ∷ os) = search only_rules depth 12

  dial_target-Quiet :
      (node : Dict) (timeout_s caller_id : Value) (name : Option ℕ) (target : String)
      → Only Quiet (dial_target w node timeout_s caller_id name target)
  unfolding dial_target
  dial_target-Quiet node timeout_s caller_id name target = search only_rules depth 14

  h_dial-Quiet : (node : Dict) → Only Quiet (h_dial w node)
  unfolding h_dial
  h_dial-Quiet node = search (only_rules, dial_operators-Quiet, dial_target-Quiet) depth 14

  asked_agent-Quiet : (node : Dict) → Only Quiet (asked_agent w node)
  unfolding asked_agent
  asked_agent-Quiet node = search only_rules depth 12

  agent_answer-Quiet : (answer : String × Value) → Only Quiet (agent_answer w answer)
  unfolding agent_answer
  agent_answer-Quiet (port, answer) = search only_rules depth 12

  agent_exit-Quiet : (answer : Option (String × Value)) → Only Quiet (agent_exit w answer)
  unfolding agent_exit
  agent_exit-Quiet none = search only_rules
  agent_exit-Quiet (some a) = agent_answer-Quiet a

  h_ai_agent-Quiet : (node : Dict) → Only Quiet (h_ai_agent w node)
  unfolding h_ai_agent
  h_ai_agent-Quiet node = search (only_rules, asked_agent-Quiet, agent_exit-Quiet) depth 12

  ruleset handlers = (
    h_entry-Quiet, h_play-Quiet, h_hours-Quiet, h_menu-Quiet, h_dial-Quiet, h_ai_agent-Quiet,
    h_set_vars-Quiet, h_unset_vars-Quiet, h_conditions-Quiet, h_send_sms-Quiet, h_request-Quiet,
  )

  -- A node that is neither `voicemail` nor `hangup` leaves the caller on the line.
  pub run_node-Quiet :
      (tz t : String) (node : Dict)
      → str_eq t "voicemail" ≡ false
      → str_eq t "hangup" ≡ false
      → Only Quiet (run_node w tz t node)
  unfolding run_node
  run_node-Quiet tz t node v h = search (only_rules, handlers, Only-else) depth 30

  h_voicemail-Plain : (node : Dict) → Only Plain (h_voicemail w node)
  unfolding h_voicemail
  h_voicemail-Plain node = search only_rules depth 12

  h_hangup-Plain : Only Plain (h_hangup w)
  unfolding h_hangup
  h_hangup-Plain = search only_rules depth 12

  -- No handler emits a summary, nor touches the record of the path.
  pub run_node-Plain : (tz t : String) (node : Dict) → Only Plain (run_node w tz t node)
  unfolding run_node
  run_node-Plain tz t node = elim (Bool-cases (str_eq t "voicemail")) [
    | inl e ↦ rw ((eq_iff t "voicemail").0 e) (h_voicemail-Plain node)
    | inr v ↦ elim (Bool-cases (str_eq t "hangup")) [
      | inl e ↦ rw ((eq_iff t "hangup").0 e) h_hangup-Plain
      | inr h ↦ Only-weaken (run_node w tz t node) Plain-of-Quiet (run_node-Quiet tz t node v h)
    ]
  ]
