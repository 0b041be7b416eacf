-- ===== src/Flows/Interpreter/Examples.antt =====
-- Two small runs: an agent whose call a human takes over, and a flow that leads nowhere.
use owen_main.Common.{
  ℕ, String, List, [], ◌∷◌, ◌++◌, ◌≡◌, refl, true, false, none, some, Result, ok, contains, All,
}
use owen_main.Common.Json.{
  null, str, dict, end, field, Dict, get, has, as_dict, truthy, is_text, hashable,
}
use owen_main.Flows.Validator.Ports.{edges}
use owen_main.Flows.Validator.Errors.{entry_ids, node_items}
use owen_main.Flows.Variables.Conditions.{Matching}
use owen_main.Flows.Interpreter.Effects.{World, Call, Reason, hangup, stood_down, unrouted_hangup}
use owen_main.Flows.Interpreter.Machine.{Machine, safe_hangup, port_label}
use owen_main.Flows.Interpreter.Nodes.{
  run_node, h_entry, h_ai_agent, asked_agent, agent_exit, agent_answer, agent_port,
}
use owen_main.Flows.Interpreter.Run.{
  run, run_graph, pin_version, start_graph, start_at, loop, go_on, round, at_node, visit_node,
  handle, guarded_node, run_value, emit_transition, emit_exit, emit_summary, fall, route, depart,
  stands_down, is_null, port_text, dial_answered, in_texts, post_emit_types, entry_id, resolve,
  fallback_of, summarized, taken_over,
}
use owen_main.Flows.Interpreter.Traces.{Quiet, Plain}
use owen_main.Flows.Interpreter.Outcomes.{
  summary_of, reported, run_summary, stood_down_hands_off, dropped_hangs_up,
}

abbrev no_numbers : Matching
no_numbers = record {
  Number = ℕ;
  to_number = λ s. none;
  less = λ a b. false;
  search_regex = λ p s. some false;
}

-- Every call succeeds; the agent reports that a human took the call over.
abbrev seized : World
seized = record {
  act = λ h c. ok tt;
  digits = λ h. ok none;
  dial_result = λ h. ok "noanswer";
  agent_result = λ h. ok (taken_over, null);
  http_result = λ h. ok (0, null);
  diagnostics = λ h. none;
  has_on_start = true;
  has_play_and_wait = true;
  has_agent = true;
  has_sms = false;
  has_http = false;
  as_float = λ v. ok v;
  as_int = λ v. ok v;
  local_time = λ z. none;
  own_time = (0, 0);
  time_text = λ z. none;
  upper = λ s. s;
  matching = no_numbers;
}

abbrev fresh : Machine
fresh = record {
  variables = [];
  rec_counter = 0;
  event_extra = none;
  path = [];
  steps = 0;
  last_node = none;
  history = [];
}

abbrev agent_flow : Dict
agent_flow =
    (
      "nodes",
      dict (
          field "e"
            (dict (
              field "type" (str "entry") (field "next" (dict (field "default" (str "a") end)) end)))
            (field "a" (dict (field "type" (str "ai_agent") end)) end)),
    )
    ∷ []

abbrev lone_flow : Dict
lone_flow = ("nodes", dict (field "e" (dict (field "type" (str "entry") end)) end)) ∷ []

-- The line below stands for all that a run goes through.
running : World → ℕ → String → Dict → Machine → Result Reason × Machine
unfolding run run_graph pin_version start_graph start_at loop go_on round at_node visit_node handle
    guarded_node run_value emit_transition emit_exit emit_summary fall route depart stands_down
    is_null port_text dial_answered in_texts post_emit_types entry_id resolve fallback_of summarized
    run_node h_entry h_ai_agent asked_agent agent_exit agent_answer agent_port safe_hangup
    port_label edges entry_ids node_items get has as_dict truthy is_text hashable contains
running = run

agent_run : (run seized 100 "UTC" agent_flow fresh).0 ≡ ok (stood_down taken_over)
unfolding running
agent_run = refl

lone_run : (run seized 100 "UTC" lone_flow fresh).0 ≡ ok unrouted_hangup
unfolding running
lone_run = refl

run_summary_example :
    let (r, s') = run seized 100 "UTC" agent_flow fresh in
    (made : List Call) × (s'.history ≡ summary_of (reported r) s' ∷ (made ++ [])) × All Plain made
run_summary_example = run_summary seized 100 "UTC" agent_flow fresh

stood_down_hands_off_example :
    (made : List Call) × ((run seized 100 "UTC" agent_flow fresh).1.history
      ≡ summary_of (stood_down taken_over) (run seized 100 "UTC" agent_flow fresh).1 ∷ (made ++ []))
    × All Quiet made
stood_down_hands_off_example =
    stood_down_hands_off seized 100 "UTC" agent_flow fresh taken_over agent_run

dropped_hangs_up_example :
    (before : List Call) × ((run seized 100 "UTC" lone_flow fresh).1.history
      ≡ summary_of unrouted_hangup (run seized 100 "UTC" lone_flow fresh).1 ∷ hangup ∷ before)
dropped_hangs_up_example =
    dropped_hangs_up seized 100 "UTC" lone_flow fresh unrouted_hangup lone_run refl
