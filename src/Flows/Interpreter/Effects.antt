-- ===== src/Flows/Interpreter/Effects.antt =====
-- What leaves the interpreter of backend/app/flows/interpreter.py: calls of the injected
-- collaborators, and events. A collaborator answers by the calls that were made before.
use owen_main.Common.{ℕ, String, List, Bool, Option, Result}
use owen_main.Common.Json.{Value, Dict}
use owen_main.Flows.Variables.Conditions.{Matching}

-- The reasons for which `_run_graph` returns, and the one of `run` where it raised.
pub data Reason : Type 0 where
  empty_graph no_entry max_steps dangling_edge terminal dial_completed unrouted_hangup : Reason
  completed error : Reason
  stood_down : String → Reason

pub data Routed : Type 0 where
  to_edge to_fallback to_hangup at_terminal : Routed
  handed_over : String → Routed

-- The payloads of `emit`, with the parts of the provider sequence, and without durations.
pub data Event : Type 0 where
  node_entered : ℕ → String → Value → Option Dict → Event
  node_left : ℕ → String → Value → Option String → Routed → Value → Bool → Option Dict → Event
  call_summary : Reason → ℕ → List String → Option String → Event

-- The calls of the injected collaborators.
pub data Call : Type 0 where
  pin_version answer hangup : Call
  play play_and_wait : String → Call
  record_call : ℕ → Call
  read_digit : String → Value → Value → Call
  dial_number : String → Value → Value → Option ℕ → Call
  dial_operator : List String → Value → Value → Option ℕ → Call
  voicemail : Option String → ℕ → Value → Value → Call
  run_agent : Dict → Call
  send_sms : String → String → Call
  http_request : String → String → Dict → Value → Call
  emit : Event → Call

abbrev pub History : Type 0
History = List Call

-- The injected collaborators, and what the handlers take from Python's clock and numbers. The
-- optional ones say whether they are there.
pub record World : Type 1 where
  pub act : History → Call → Result (Unit {0})
  pub digits : History → Result (Option String)
  pub dial_result : History → Result String
  pub agent_result : History → Result (String × Value)
  pub http_result : History → Result (ℕ × Value)
  pub diagnostics : History → Option Dict
  pub has_on_start : Bool
  pub has_play_and_wait : Bool
  pub has_agent : Bool
  pub has_sms : Bool
  pub has_http : Bool
  pub as_float : Value → Result Value
  pub as_int : Value → Result Value
  pub local_time : Value → Option (ℕ × ℕ)
  pub own_time : ℕ × ℕ
  pub time_text : Value → Option (String × String)
  pub upper : String → String
  pub matching : Matching
