-- ===== src/Flows/Interpreter/Outcomes.antt =====
-- What a whole run has done to the call, by the reason for which it ended.
use mathlib.Core.Path.{subst}
use owen_main.Common.{
  ℕ, zero, suc, String, List, [], ◌∷◌, ◌++◌, ◌≡◌, refl, ap, Option, none, some, Result, ok, raise,
  All,
}
use owen_main.Common.Json.{Value, str, Dict, get, as_dict}
use owen_main.Flows.Interpreter.Effects.{
  World, Call, hangup, emit, call_summary, Reason, stood_down, error,
}
use owen_main.Flows.Interpreter.Machine.{Machine, Exec, continue, noted}
use owen_main.Flows.Interpreter.Run.{
  Next, ended, onward, round, go_on, loop, pin_version, start_at, start_graph, run_graph,
  summarized, run, entry_id,
}
use owen_main.Flows.Interpreter.Traces.{Only, only_rules, Quiet, Plain}
use owen_main.Flows.Interpreter.Rounds.{safe_hangup-eq, emit_summary-eq}
use owen_main.Flows.Interpreter.Fates.{round-Fate}
use owen_main.Flows.Interpreter.Made.{
  Made, Made-trans, Made-noted, Made-Plain, Made-of-Extends, Class, handed, finished, dropped,
  class_of, Fate, NextFate,
}

-- The fate of a run that returned a reason; one that raised has emitted no summary yet.
abbrev RunFate : Machine → Result Reason → Machine → Type 0
RunFate s (ok reason) s' = Fate (class_of reason) s s'
RunFate s (raise e) s' = Made Plain s s'

Fate-after : (c : Class) {s t : Machine} (u : Machine) → Made Quiet s t → Fate c t u → Fate c s u
Fate-after handed u a f = Made-trans a f
Fate-after finished u a f = Made-trans (Made-Plain a) f
Fate-after dropped u a f = (Made-trans (Made-Plain a) f.0, f.1)

RunFate-after :
    {s t : Machine} (r : Result Reason) (u : Machine)
    → Made Quiet s t
    → RunFate t r u
    → RunFate s r u
RunFate-after (ok reason) u a f = Fate-after (class_of reason) u a f
RunFate-after (raise e) u a f = Made-trans (Made-Plain a) f

module _ (w : World) where
  loop-Fate :
      (left : ℕ) (tz : String) (nodes : Dict) (step : ℕ) (current : Value)
      (fallback : Option String) (s : Machine)
      → RunFate s
          (loop w left tz nodes step current fallback s).0
          (loop w left tz nodes step current fallback s).1
  unfolding loop
  loop-Fate zero tz nodes step current fallback s =
      rw (safe_hangup-eq w s)
        (Made-noted hangup s tt, record { before = s.history; history = refl })
  loop-Fate (suc left) tz nodes step current fallback s =
      go (loop-Fate left tz nodes (suc step)) (round w tz nodes (suc step) current fallback s).0
        (round w tz nodes (suc step) current fallback s).1
        (round-Fate w tz nodes (suc step) current fallback s)
    where
      rest : Value → Option String → Exec Reason
      rest = loop w left tz nodes (suc step)

      go :
          ((v : Value) (f : Option String) (t : Machine) → RunFate t (rest v f t).0 (rest v f t).1)
          → (r : Result Next) (t : Machine) → NextFate s r t
          → RunFate s (continue r (go_on w rest) t).0 (continue r (go_on w rest) t).1
      go ih (ok (ended reason)) t n = unfold go_on in n
      go ih (ok (onward v f)) t n =
          unfold go_on in RunFate-after (rest v f t).0 (rest v f t).1 n (ih v f t)
      go ih (raise e) t n = n

  start_at-Fate :
      (limit : ℕ) (tz : String) (nodes : Dict) (fallback entry : Option String) (s : Machine)
      → RunFate s
          (start_at w limit tz nodes fallback entry s).0
          (start_at w limit tz nodes fallback entry s).1
  unfolding start_at
  start_at-Fate limit tz nodes fallback none s =
      rw (safe_hangup-eq w s)
        (Made-noted hangup s tt, record { before = s.history; history = refl })
  start_at-Fate limit tz nodes fallback (some nid) s =
      loop-Fate limit tz nodes 0 (str nid) fallback s

  start_graph-Fate :
      (limit : ℕ) (tz : String) (graph : Dict) (nodes : Option Dict) (s : Machine)
      → RunFate s (start_graph w limit tz graph nodes s).0 (start_graph w limit tz graph nodes s).1
  unfolding start_graph
  start_graph-Fate limit tz graph none s =
      rw (safe_hangup-eq w s)
        (Made-noted hangup s tt, record { before = s.history; history = refl })
  start_graph-Fate limit tz graph (some []) s =
      rw (safe_hangup-eq w s)
        (Made-noted hangup s tt, record { before = s.history; history = refl })
  start_graph-Fate limit tz graph (some (n ∷ ns)) s =
      start_at-Fate limit tz (n ∷ ns) _ (entry_id (n ∷ ns)) s

  pin-Quiet : Only Quiet (pin_version w)
  unfolding pin_version
  pin-Quiet = search only_rules

  run_graph-Fate :
      (limit : ℕ) (tz : String) (graph : Dict) (s : Machine)
      → RunFate s (run_graph w limit tz graph s).0 (run_graph w limit tz graph s).1
  unfolding run_graph
  run_graph-Fate limit tz graph s =
      go (pin_version w s).0 (pin_version w s).1 (Made-of-Extends (pin-Quiet.at s))
    where
      body : Exec Reason
      body = start_graph w limit tz graph (as_dict (get "nodes" graph))

      go :
          (r : Result (Unit {0})) (t : Machine)
          → Made Quiet s t
          → RunFate s (continue r (λ _. body) t).0 (continue r (λ _. body) t).1
      go (ok _) t m = RunFate-after (body t).0 (body t).1 m (start_graph-Fate limit tz graph _ t)
      go (raise e) t m = Made-Plain m

-- The reason that the summary names.
abbrev pub reported : Result Reason → Reason
reported (ok reason) = reason
reported (raise e) = error

RunFate-Plain : {s : Machine} (r : Result Reason) (t : Machine) → RunFate s r t → Made Plain s t
RunFate-Plain (ok reason) t f = by_class (class_of reason) f
  where
    by_class : {s t : Machine} (c : Class) → Fate c s t → Made Plain s t
    by_class handed m = Made-Plain m
    by_class finished m = m
    by_class dropped m = m.0
RunFate-Plain (raise e) t m = m

-- The summary of a machine, as a call.
abbrev pub summary_of : Reason → Machine → Call
summary_of reason t = emit (call_summary reason t.steps t.path t.last_node)

module _ (w : World) where
  -- The machine after `_run_graph`, when the summary is about to be emitted.
  abbrev pub before_summary : ℕ → String → Dict → Machine → Machine
  before_summary limit tz graph s = (run_graph w limit tz graph s).1

  run-eq :
      (limit : ℕ) (tz : String) (graph : Dict) (s : Machine)
      → let r = (run_graph w limit tz graph s).0 in
        let t = before_summary limit tz graph s in
        run w limit tz graph s ≡ (r, noted (summary_of (reported r) t) t)
  unfolding run
  run-eq limit tz graph s = go (run_graph w limit tz graph s).0 (run_graph w limit tz graph s).1
    where
      go :
          (r : Result Reason) (t : Machine)
          → summarized w r t ≡ (r, noted (summary_of (reported r) t) t)
      go (ok reason) t = unfold summarized in rw (emit_summary-eq w reason t)
      go (raise e) t = unfold summarized in rw (emit_summary-eq w error t)

  -- Every run, whether it returns or raises, emits exactly one summary, as its last call: the
  -- summary names the reason that the run returned (or `error`), and no call before it is a summary.
  pub run_summary :
      (limit : ℕ) (tz : String) (graph : Dict) (s : Machine)
      → let (r, s') = run w limit tz graph s in
        (made : List Call) × (s'.history ≡ summary_of (reported r) s' ∷ (made ++ s.history))
        × All Plain made
  run_summary limit tz graph s =
      let m =
        RunFate-Plain (run_graph w limit tz graph s).0 (before_summary limit tz graph s)
          (run_graph-Fate w limit tz graph s) in
      rw (run-eq limit tz graph s) (
        m.made,
        ap
            (λ h.
              summary_of (reported (run_graph w limit tz graph s).0)
                (before_summary limit tz graph s)
              ∷ h)
            m.history,
        m.all,
      )

  -- A run that stands down (a human took the call over, or an agent transferred it) has made no call
  -- that ends the caller's channel: of all it did, no call is a hangup or a voicemail, and the only
  -- call after those of `_run_graph` is the summary.
  pub stood_down_hands_off :
      (limit : ℕ) (tz : String) (graph : Dict) (s : Machine) (port : String)
      → (run w limit tz graph s).0 ≡ ok (stood_down port)
      → (made : List Call) × ((run w limit tz graph s).1.history
          ≡ summary_of (stood_down port) (run w limit tz graph s).1 ∷ (made ++ s.history))
        × All Quiet made
  stood_down_hands_off limit tz graph s port h =
      let t = before_summary limit tz graph s in
      let h' = rw (run-eq limit tz graph s) at h in
      let m = subst (λ r. RunFate s r t) h' (run_graph-Fate w limit tz graph s) in
      rw (run-eq limit tz graph s)
        (rw h' (m.made, ap (λ h. summary_of (stood_down port) t ∷ h) m.history, m.all))

  -- A run that returns for any reason but a stand-down or a node that ends the call (so: an empty
  -- graph, no entry, too many steps, a dangling edge, or a port that leads nowhere) has hung up, and
  -- only the summary follows that hangup.
  pub dropped_hangs_up :
      (limit : ℕ) (tz : String) (graph : Dict) (s : Machine) (reason : Reason)
      → (run w limit tz graph s).0 ≡ ok reason
      → class_of reason ≡ dropped
      → (before : List Call) × ((run w limit tz graph s).1.history
          ≡ summary_of reason (run w limit tz graph s).1 ∷ hangup ∷ before)
  dropped_hangs_up limit tz graph s reason h c =
      let t = before_summary limit tz graph s in
      let h' = rw (run-eq limit tz graph s) at h in
      let f =
        subst (λ k. Fate k s t) c
          (subst (λ r. RunFate s r t) h' (run_graph-Fate w limit tz graph s)) in
      rw (run-eq limit tz graph s)
        (rw h' (f.1.before, ap (λ h. summary_of reason t ∷ h) f.1.history))
