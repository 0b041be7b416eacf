-- ===== src/Flows/Interpreter/Fates.antt =====
-- How a round ends: whether the caller is still on the line.
use owen_main.Common.{
  ℕ, String, ◌≡◌, refl, Bool, true, false, ◌||◌, Option, none, some, Result, ok, raise, inl, inr,
  str_eq, eq_iff, arith, Bool-cases, if◌then◌else◌,
}
use owen_main.Common.Json.{
  Value, null, bool, int, float, str, list, dict, Dict, get, is_text, hashable, as_dict,
}
use owen_main.Flows.Interpreter.Effects.{
  World, Call, hangup, emit, node_left, Reason, dangling_edge, Routed, Reason,
}
use owen_main.Flows.Interpreter.Machine.{Machine, Exec, ◌>>=◌, continue, noted}
use owen_main.Flows.Interpreter.Nodes.{h_voicemail, h_hangup, run_node}
use owen_main.Flows.Interpreter.Run.{
  fall, run_value, guarded_node, handle, route, depart, stands_down, is_null, visit_node, at_node,
  round, entering, dial_answered, resolve,
}
use owen_main.Flows.Interpreter.Traces.{
  Quiet, Plain, Returns, Returns-pure, Returns-bind, Returns-after, Returns-attempt, Holds,
}
use owen_main.Flows.Interpreter.Rounds.{safe_hangup-eq, emit_exit-eq, handle-Quiet, handle-Plain}
use owen_main.Flows.Interpreter.Made.{
  Made, Made-refl, Made-trans, Made-noted, Made-Plain, Made-of-Extends, class_of, NextFate, dropped,
}

abbrev ends_call : Value → Bool
ends_call t = is_text "voicemail" t || is_text "hangup" t

module _ (w : World) where
  fall-Fate :
      (reason : Reason) (fallback : Option String) (s t : Machine)
      → class_of reason ≡ dropped
      → Made Quiet s t
      → NextFate s (fall w reason fallback t).0 (fall w reason fallback t).1
  unfolding fall
  fall-Fate reason none s t c m = rw (safe_hangup-eq w t) (
      rw c (
        Made-trans (Made-Plain m) (Made-noted hangup t tt),
        record { before = t.history; history = refl },
      ))
  fall-Fate reason (some f) s t c m = m

  left-Quiet :
      (step : ℕ) (nid : String) (ty : Value) (port : Option String) (r : Routed) (next : Value)
      (errored : Bool) (s t : Machine)
      → Made Quiet s t
      → Made Quiet s (noted (emit (node_left step nid ty port r next errored t.event_extra)) t)
  left-Quiet step nid ty port r next errored s t m = Made-trans m (Made-noted _ t tt)

  dropped_reason :
      (b : Bool) → class_of (if b then Reason.dial_completed else Reason.unrouted_hangup) ≡ dropped
  dropped_reason true = refl
  dropped_reason false = refl

  route-Fate :
      (step : ℕ) (nid : String) (ty : Value) (node : Dict) (port : Option String) (errored : Bool)
      (fallback : Option String) (s t : Machine)
      → Made Quiet s t
      → NextFate s
          (route w step nid ty node port errored fallback t).0
          (route w step nid ty node port errored fallback t).1
  unfolding route
  route-Fate step nid ty node port errored fallback s t m =
      elim (Bool-cases (is_null (resolve node port))) [
        | inl e ↦ rw e (
            rw (emit_exit-eq w step nid ty port) (
              fall-Fate _ fallback s _ (dropped_reason (dial_answered ty port))
                (left-Quiet step nid ty port _ _ errored s t m)))
        | inr e ↦
            rw e
              (rw (emit_exit-eq w step nid ty port) (left-Quiet step nid ty port _ _ errored s t m))
      ]

  depart-Fate :
      (step : ℕ) (nid : String) (ty : Value) (node : Dict) (port : Option String) (errored : Bool)
      (fallback : Option String) (s t : Machine)
      → (ends_call ty ≡ true → stands_down port ≡ false)
      → (ends_call ty ≡ false → Made Quiet s t)
      → Made Plain s t
      → NextFate s
          (depart w step nid ty node (port, errored) fallback t).0
          (depart w step nid ty node (port, errored) fallback t).1
  unfolding depart
  depart-Fate step nid ty node port errored fallback s t no_port quiet plain =
      elim (Bool-cases (ends_call ty)) [
        | inl e ↦
            rw (no_port e, e)
              (rw (emit_exit-eq w step nid ty port) (Made-trans plain (Made-noted _ t tt)))
        | inr e ↦ elim (Bool-cases (stands_down port)) [
          | inl d ↦ rw d (
              rw (emit_exit-eq w step nid ty port)
                (left-Quiet step nid ty port _ _ errored s t (quiet e)))
          | inr d ↦ rw (d, e) (route-Fate step nid ty node port errored fallback s t (quiet e))
        ]
      ]

  -- A node that ends the call returns no port.
  hangup-no_port : (node : Dict) → Returns (λ p. p ≡ none) (h_hangup w)
  unfolding h_hangup
  hangup-no_port node = Returns-bind _ _ (λ _. Returns-pure none refl)

  voicemail-no_port : (node : Dict) → Returns (λ p. p ≡ none) (h_voicemail w node)
  unfolding h_voicemail
  voicemail-no_port node = search (Returns-bind, Returns-pure) depth 16

  run_value-no_port :
      (tz : String) (ty : Value) (node : Dict)
      → ends_call ty ≡ true
      → Returns (λ p. p ≡ none) (run_value w tz ty node)
  unfolding run_value run_node is_text
  run_value-no_port tz (str t) node e = elim (Bool-cases (str_eq t "voicemail")) [
    | inl v ↦ rw ((eq_iff t "voicemail").0 v) (voicemail-no_port node)
    | inr v ↦
        let h : str_eq t "hangup" ≡ true = ground arith in
        rw ((eq_iff t "hangup").0 h) (hangup-no_port node)
  ]
  run_value-no_port tz _ node e = cc

  abbrev IsQuietOutcome : Option String × Bool → Type 0
  IsQuietOutcome o = stands_down o.0 ≡ false

  guarded-no_port :
      (tz : String) (ty : Value) (node : Dict)
      → ends_call ty ≡ true
      → Returns IsQuietOutcome (guarded_node w tz ty node)
  unfolding guarded_node
  guarded-no_port tz ty node e =
      Returns-attempt _ _
        (Returns-after _ _ (run_value-no_port tz ty node e)
          (λ p q. Returns-pure (p, false) (rw q (unfold stands_down in refl))))
        (Returns-pure _ (unfold stands_down in refl))

  guarded_then :
      (tz : String) (ty : Value) (node : Dict)
      (f : Option String × Bool → Exec (Option String × Bool))
      → ends_call ty ≡ true
      → ((o : Option String × Bool) → IsQuietOutcome o → Returns IsQuietOutcome (f o))
      → Returns IsQuietOutcome (guarded_node w tz ty node >>= f)
  guarded_then tz ty node f e k = Returns-after _ f (guarded-no_port tz ty node e) k

  handle-no_port :
      (tz : String) (step : ℕ) (nid : String) (node : Dict)
      → ends_call (get "type" node) ≡ true
      → Returns IsQuietOutcome (handle w tz step nid node)
  unfolding handle
  handle-no_port tz step nid node e = search (Returns-bind, Returns-pure, guarded_then) depth 16

  -- A visit, from the entry in the path on.
  pub visit_node-Fate :
      (tz : String) (step : ℕ) (nid : String) (node : Dict) (fallback : Option String) (s : Machine)
      → NextFate s
          (visit_node w tz step nid node fallback s).0
          (visit_node w tz step nid node fallback s).1
  unfolding visit_node
  visit_node-Fate tz step nid node fallback s =
      go (handle w tz step nid node t).0 (handle w tz step nid node t).1
        (λ e. (handle-no_port tz step nid node e).at t)
        (λ e. Made-of-Extends ((handle-Quiet w tz step nid node (split e).0 (split e).1).at t))
        (Made-of-Extends ((handle-Plain w tz step nid node).at t))
    where
      t : Machine
      t = entering nid s

      ty : Value
      ty = get "type" node

      split :
          ends_call ty ≡ false → (is_text "voicemail" ty ≡ false) × (is_text "hangup" ty ≡ false)
      split e = ground arith

      from : {P : Call → Type 0} {u : Machine} → Made P t u → Made P s u
      from m = record { made = m.made; history = m.history; all = m.all }

      go :
          (r : Result (Option String × Bool)) (u : Machine)
          → (ends_call ty ≡ true → Holds IsQuietOutcome r)
          → (ends_call ty ≡ false → Made Quiet t u)
          → Made Plain t u
          → NextFate s
              (continue r (λ o. depart w step nid ty node o fallback) u).0
              (continue r (λ o. depart w step nid ty node o fallback) u).1
      go (ok (port, errored)) u no_port quiet plain =
          depart-Fate step nid ty node port errored fallback s u no_port (λ e. from (quiet e))
            (from plain)
      go (raise e) u no_port quiet plain = from plain

  at_node-Fate :
      (tz : String) (step : ℕ) (nid : String) (fallback : Option String) (node : Option Dict)
      (s : Machine)
      → NextFate s
          (at_node w tz step nid fallback node s).0
          (at_node w tz step nid fallback node s).1
  unfolding at_node
  at_node-Fate tz step nid fallback none s = fall-Fate dangling_edge fallback s s refl (Made-refl s)
  at_node-Fate tz step nid fallback (some node) s = visit_node-Fate tz step nid node fallback s

  pub round-Fate :
      (tz : String) (nodes : Dict) (step : ℕ) (current : Value) (fallback : Option String)
      (s : Machine)
      → NextFate s
          (round w tz nodes step current fallback s).0
          (round w tz nodes step current fallback s).1
  unfolding round
  round-Fate tz nodes step (str nid) fallback s =
      at_node-Fate tz step nid fallback (as_dict (get nid nodes)) s
  round-Fate tz nodes step null fallback s =
      unfold hashable in fall-Fate dangling_edge fallback s s refl (Made-refl s)
  round-Fate tz nodes step (bool _) fallback s =
      unfold hashable in fall-Fate dangling_edge fallback s s refl (Made-refl s)
  round-Fate tz nodes step (int _ _) fallback s =
      unfold hashable in fall-Fate dangling_edge fallback s s refl (Made-refl s)
  round-Fate tz nodes step (float _) fallback s =
      unfold hashable in fall-Fate dangling_edge fallback s s refl (Made-refl s)
  round-Fate tz nodes step (list _) fallback s = unfold hashable in Made-refl s
  round-Fate tz nodes step (dict _) fallback s = unfold hashable in Made-refl s
