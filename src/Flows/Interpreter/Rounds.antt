-- ===== src/Flows/Interpreter/Rounds.antt =====
-- What one visit of a node does to the line, and how it ends.
use owen_main.Common.{ℕ, String, ◌≡◌, Bool, false, Option, ok, arith}
use owen_main.Common.Json.{Value, str, Dict, get, is_text}
use owen_main.Flows.Interpreter.Effects.{
  World, hangup, emit, node_left, call_summary, Reason, Routed,
}
use owen_main.Flows.Interpreter.Machine.{Machine, noted, safe_hangup}
use owen_main.Flows.Interpreter.Run.{
  emit_transition, emit_exit, emit_summary, run_value, guarded_node, handle,
}
use owen_main.Flows.Interpreter.Traces.{Only, Quiet, Plain, only_rules}
use owen_main.Flows.Interpreter.Quiet.{run_node-Quiet, run_node-Plain}

module _ (w : World) where
  -- The best-effort calls return whatever the collaborator does.
  pub safe_hangup-eq : (s : Machine) → safe_hangup w s ≡ (ok tt, noted hangup s)
  unfolding safe_hangup
  safe_hangup-eq s = ground arith

  pub emit_exit-eq :
      (step : ℕ) (nid : String) (t : Value) (port : Option String) (r : Routed) (next : Value)
      (errored : Bool) (s : Machine)
      → emit_exit w step nid t port r next errored s
        ≡ (ok tt, noted (emit (node_left step nid t port r next errored s.event_extra)) s)
  unfolding emit_exit
  emit_exit-eq step nid t port r next errored s = ground arith

  pub emit_summary-eq :
      (r : Reason) (s : Machine)
      → emit_summary w r s ≡ (ok tt, noted (emit (call_summary r s.steps s.path s.last_node)) s)
  unfolding emit_summary
  emit_summary-eq r s = ground arith

  run_value-Quiet :
      (tz : String) (t : Value) (node : Dict)
      → is_text "voicemail" t ≡ false
      → is_text "hangup" t ≡ false
      → Only Quiet (run_value w tz t node)
  unfolding run_value is_text
  run_value-Quiet tz (str t) node v h = run_node-Quiet w tz t node v h
  run_value-Quiet tz _ node v h = search only_rules depth 12

  run_value-Plain : (tz : String) (t : Value) (node : Dict) → Only Plain (run_value w tz t node)
  unfolding run_value
  run_value-Plain tz (str t) node = run_node-Plain w tz t node
  run_value-Plain tz _ node = search only_rules depth 12

  transition-Quiet :
      (step : ℕ) (nid : String) (t : Value) (extra : Option Dict)
      → Only Quiet (emit_transition w step nid t extra)
  unfolding emit_transition
  transition-Quiet step nid t extra = search only_rules

  transition-Plain :
      (step : ℕ) (nid : String) (t : Value) (extra : Option Dict)
      → Only Plain (emit_transition w step nid t extra)
  unfolding emit_transition
  transition-Plain step nid t extra = search only_rules

  guarded-Quiet :
      (tz : String) (t : Value) (node : Dict)
      → is_text "voicemail" t ≡ false
      → is_text "hangup" t ≡ false
      → Only Quiet (guarded_node w tz t node)
  unfolding guarded_node
  guarded-Quiet tz t node v h = search (only_rules, run_value-Quiet) depth 12

  guarded-Plain : (tz : String) (t : Value) (node : Dict) → Only Plain (guarded_node w tz t node)
  unfolding guarded_node
  guarded-Plain tz t node = search (only_rules, run_value-Plain) depth 12

  pub handle-Quiet :
      (tz : String) (step : ℕ) (nid : String) (node : Dict)
      → is_text "voicemail" (get "type" node) ≡ false
      → is_text "hangup" (get "type" node) ≡ false
      → Only Quiet (handle w tz step nid node)
  unfolding handle
  handle-Quiet tz step nid node v h = search (only_rules, transition-Quiet, guarded-Quiet) depth 16

  pub handle-Plain :
      (tz : String) (step : ℕ) (nid : String) (node : Dict) → Only Plain (handle w tz step nid node)
  unfolding handle
  handle-Plain tz step nid node = search (only_rules, transition-Plain, guarded-Plain) depth 16
