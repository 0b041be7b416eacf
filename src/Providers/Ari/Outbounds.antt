-- ===== src/Providers/Ari/Outbounds.antt =====
-- What `run_outbound_call` leaves behind.
use owen_main.Common.{
  ℕ, String, List, [], ◌∷◌, ◌≡◌, ◌≢◌, refl, sym, ap, ◌∙◌, inl, inr, true, Option, none, some, In,
  contains, In-cons, eq_iff, arith, if◌then◌else◌,
}
use Prim.Native.String.{◌++◌}
use owen_main.Common.Json.{Dict}
use owen_main.Flows.Dtmf.{watch, unwatch}
use owen_main.Providers.Ari.Client.{
  Platform, Client, ◌>>=◌, ◌>>◌, pure, waiting, rescue, continue, tell, ask, delete_channel,
  originate, delete_bridge, Lands,
}
use owen_main.Providers.Ari.Events.{has_id}
use owen_main.Providers.Ari.Channels.{
  create_bridge, destroy_bridge, add_to_bridge, record_bridge, start_playback, resolve_media,
}
use owen_main.Providers.Ari.Waits.{await_bridge_end}
use owen_main.Providers.Ari.Dial.{when, destroy_made}
use owen_main.Providers.Ari.Outbound.{
  OutboundCall, originate_with_id, hear_consent, consent_resolved, play_consent_or_leg_gone,
  consent_if, connect, callee_up, operator_up, outbound_body, outbound_cleanup, run_outbound_call,
}
use owen_main.Providers.Ari.Resources.{Resource, channel_leg, live, live-deleted}
use owen_main.Providers.Ari.Keeping.{Keeps, Keeps-originate, Keeps-bind, keeps_rules}
use owen_main.Providers.Ari.Owing.{
  Owes, Owes-Keeps, Owes-bind, Owes-if, Owes-rescue, Owes-bridge, settled,
}
use owen_main.Providers.Ari.Dialling.{add_to_bridge-Keeps, when-Keeps, record_bridge-Keeps}
use owen_main.Providers.Ari.Teardown.{destroyed}

module _ {p : Platform} {legs : List String} where
  start_playback-Keeps : (channel uri : String) → Keeps p legs (start_playback p channel uri)
  unfolding start_playback
  start_playback-Keeps channel uri = search keeps_rules depth 12

  hear_consent-Keeps : (cs : List String) (o : Option String) → Keeps p legs (hear_consent p cs o)
  unfolding hear_consent
  hear_consent-Keeps cs none = search keeps_rules
  hear_consent-Keeps cs (some id) = search keeps_rules depth 8

  consent-Keeps : (c : OutboundCall) (o : Option String) → Keeps p legs (consent_if p c o)
  unfolding consent_if play_consent_or_leg_gone
  consent-Keeps c none = search keeps_rules
  consent-Keeps c (some media) = go (resolve_media p media)
    where
      cs : List String
      cs = c.operator_channel ∷ c.callee_channel ∷ []

      go : (o : Option String) → Keeps p legs (consent_resolved p c.callee_channel cs o)
      go none = search keeps_rules
      go (some uri) = search (keeps_rules, start_playback-Keeps, hear_consent-Keeps) depth 8

  originate-Keeps :
      (channel endpoint : String) (caller_id originator : Option String) (variables : Dict)
      (timeout : Option ℕ)
      → In channel legs
      → Keeps p legs (originate_with_id p channel endpoint caller_id originator variables timeout)
  unfolding originate_with_id
  originate-Keeps channel endpoint caller_id originator variables timeout i =
      Keeps-bind (ask p (originate _)) (λ created. pure (has_id created))
        (Keeps-originate _ channel refl i) (search keeps_rules)

  connect-Owes : (c : OutboundCall) → Owes p legs (create_bridge p >>= connect p c)
  unfolding connect
  connect-Owes c =
      Owes-bridge (connect p c)
        (λ b. add_to_bridge p b (c.operator_channel ∷ c.callee_channel ∷ []) >>= λ joined.
          if joined
          then (do
            when c.recorded (record_bridge p b (c.operator_channel ++ "-outbound"))
            waiting (await_bridge_end p c.operator_channel c.callee_channel)
            pure tt)
          else pure tt)
        (search keeps_rules) (λ b. refl)
        (λ b. search (keeps_rules, add_to_bridge-Keeps, when-Keeps, record_bridge-Keeps) depth 12)

  callee_up-Owes : (c : OutboundCall) → Owes p legs (callee_up p c)
  unfolding callee_up
  callee_up-Owes c =
      search (keeps_rules, Owes-bind, Owes-if, Owes-Keeps, consent-Keeps, connect-Owes) depth 12

  operator_up-Owes : (c : OutboundCall) → In c.callee_channel legs → Owes p legs (operator_up p c)
  unfolding operator_up
  operator_up-Owes c i =
      search (keeps_rules, Owes-bind, Owes-if, Owes-Keeps, originate-Keeps, callee_up-Owes) depth 12

  outbound_body-Owes :
      (c : OutboundCall)
      → In c.operator_channel legs
      → In c.callee_channel legs
      → Owes p legs (outbound_body p c)
  unfolding outbound_body
  outbound_body-Owes c i j =
      search (keeps_rules, Owes-bind, Owes-if, Owes-Keeps, originate-Keeps, operator_up-Owes) depth
        12

module _ (p : Platform) where
  cleanup_by :
      (queue : ℕ) (c : OutboundCall) (s : Client)
      → Lands p
      → (outbound_cleanup p queue c s).1.requests
        ≡ delete_channel c.operator_channel
          ∷ delete_channel c.callee_channel
          ∷ (destroy_made p s.bridge_id (record s {
            queues = unwatch queue (c.operator_channel ∷ c.callee_channel ∷ []) s.queues;
          })).1.requests
  unfolding outbound_cleanup destroy_made destroy_bridge
  cleanup_by queue c s calm = go s.bridge_id
    where
      s' : Client
      s' = record s { queues = unwatch queue (c.operator_channel ∷ c.callee_channel ∷ []) s.queues }

      go :
          (o : Option String)
          → (continue
              (destroy_made p o s').0
              (λ _.
                tell p (delete_channel c.callee_channel)
                >> tell p (delete_channel c.operator_channel))
              (destroy_made p o s').1).1.requests
            ≡ delete_channel c.operator_channel
              ∷ delete_channel c.callee_channel
              ∷ (destroy_made p o s').1.requests
      go none = rw (calm s.requests (delete_channel c.callee_channel) refl) refl
      go (some b) =
          rw
            (
              calm s.requests (delete_bridge b) refl,
              calm (delete_bridge b ∷ s.requests) (delete_channel c.callee_channel) refl,
            )
            refl

  -- A leg or a bridge that is there after `run_outbound_call` was there before: also when a wait fails, or
  -- the task is cancelled at a wait or a request, both legs and the bridge are asked to be destroyed. The
  -- task is not cancelled at the request that makes the bridge, nor at one that deletes a bridge or a
  -- channel.
  pub run_outbound_call_leaves_nothing :
      (c : OutboundCall) (s : Client) (r : Resource)
      → Lands p
      → live p r (run_outbound_call p c s).1.requests ≡ true
      → live p r s.requests ≡ true
  unfolding run_outbound_call contains
  run_outbound_call_leaves_nothing c s r calm h =
      let both = c.operator_channel ∷ c.callee_channel ∷ [] in
      let s0 = record s { queues = (watch both s.queues).1; bridge_id = none } in
      let o = Owes-rescue {p = p} {legs = both} (outbound_body p c) tt (
        outbound_body-Owes c (ground (arith, eq_iff c.operator_channel c.operator_channel))
          (ground (arith, eq_iff c.callee_channel c.callee_channel))) in
      let s1 = (rescue (outbound_body p c) (pure tt) s0).1 in
      let k =
        live-deleted p r c.operator_channel _
          (rw (cleanup_by (watch both s.queues).0 c s1 calm) at h) in
      let l = live-deleted p r c.callee_channel _ k.1 in
      let b = destroyed p s1.bridge_id _ r l.1 in
      settled r calm (o.at s0) (λ d i e. neither d i e k.0 l.0) b.0 b.1
    where
      neither :
          (d : String)
          → In d (c.operator_channel ∷ c.callee_channel ∷ [])
          → r ≡ channel_leg d
          → r ≢ channel_leg c.operator_channel
          → r ≢ channel_leg c.callee_channel
          → ⊥
      neither d i e m n = elim (In-cons d c.operator_channel (c.callee_channel ∷ []) i) [
        | inl q ↦ m (e ∙ ap channel_leg (sym q))
        | inr j ↦ n (e ∙ ap channel_leg (sym (only d j)))
      ]
        where
          only : (d : String) → In d (c.callee_channel ∷ []) → c.callee_channel ≡ d
          only d j = ground (arith, eq_iff c.callee_channel d)
