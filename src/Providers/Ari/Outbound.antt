-- ===== src/Providers/Ari/Outbound.antt =====
-- Calls that an operator places: `originate_operator`, `originate_number`, `_originate_with_id`,
-- `_play_consent_or_leg_gone`, `run_outbound_call` and `snoop` of
-- backend/app/providers/asterisk_client.py. `operator_dial_endpoint` is a parameter.
use owen_main.Common.{ℕ, String, List, [], ◌∷◌, Bool, true, Option, none, some, if◌then◌else◌}
use Prim.Native.String.{◌++◌}
use owen_main.Common.Json.{Value, str, Dict, get, as_dict}
use owen_main.Common.Print.{str_of}
use owen_main.Flows.Dtmf.{watch, unwatch, unregister_playback}
use owen_main.Providers.Ari.Client.{
  Platform, Act, ◌>>=◌, ◌>>◌, pure, gets, modify, waiting, registering, on_queues, ensuring, rescue,
  ask, tell, originate, delete_channel, failure, stopped,
}
use owen_main.Providers.Ari.Events.{has_id}
use owen_main.Providers.Ari.Waits.{await_channel_up, await_bridge_end, await_consent}
use owen_main.Providers.Ari.Channels.{
  resolve_media, start_playback, create_bridge, add_to_bridge, record_bridge,
}
use owen_main.Providers.Ari.Dial.{given, when, destroy_made}

-- `run_outbound_call`'s arguments.
pub record OutboundCall : Type 0 where
  pub operator_endpoint : String
  pub callee_number : String
  pub from_number : String
  pub trunk_name : String
  pub operator_channel : String
  pub callee_channel : String
  pub consent_media : Option String
  pub recorded : Bool
  pub answer_timeout : ℕ

module _ (p : Platform) where
  -- `_originate_with_id`
  unfoldable pub originate_with_id :
      String → String → Option String → Option String → Dict → Option ℕ → Act Bool
  unfolding given has_id
  originate_with_id channel endpoint caller_id originator variables timeout = do
    created ← ask p (
        originate (record {
          endpoint = endpoint;
          app_args = none;
          leg = some channel;
          originator = given originator;
          caller_id = given caller_id;
          ring_timeout = timeout;
          variables = variables;
        }))
    pure (has_id created)

  id_text : Value → Option String
  unfolding has_id
  id_text v =
      if has_id v
      then elim (as_dict v) [ none ↦ none | some d ↦ some (str_of (get "id" d)) ]
      else none

  -- `_originate_channel`
  unfoldable pub originate_channel :
      String → Option String → Option String → Dict → Act (Option String)
  unfolding given id_text
  originate_channel endpoint caller_id originator variables = do
    created ← ask p (
        originate (record {
          endpoint = endpoint;
          app_args = none;
          leg = none;
          originator = given originator;
          caller_id = given caller_id;
          ring_timeout = none;
          variables = variables;
        }))
    pure (id_text created)

  unfoldable pub originate_operator : String → Option String → Dict → Act (Option String)
  unfolding originate_channel
  originate_operator operator_endpoint caller_id variables =
      originate_channel operator_endpoint caller_id none variables

  trunk_or : Option String → String
  unfolding given
  trunk_or name = elim (given name) [ none ↦ p.trunk | some t ↦ t ]

  unfoldable pub originate_number :
      String → Option String → Option String → Option String → Dict → Act (Option String)
  unfolding originate_channel trunk_or
  originate_number number caller_id trunk_name originator variables =
      originate_channel ("PJSIP/" ++ number ++ "@" ++ trunk_or trunk_name) caller_id originator
        variables

  unfoldable pub hear_consent : List String → Option String → Act Bool
  unfolding await_consent unregister_playback
  hear_consent legs none = pure true
  hear_consent legs (some id) =
      ensuring (waiting (await_consent p legs)) (on_queues (unregister_playback id))

  unfoldable pub consent_resolved : String → List String → Option String → Act Bool
  unfolding start_playback hear_consent
  consent_resolved channel legs none = pure true
  consent_resolved channel legs (some uri) = do
    started ← start_playback p channel uri
    hear_consent legs started

  unfoldable pub play_consent_or_leg_gone : String → String → List String → Act Bool
  unfolding consent_resolved resolve_media
  play_consent_or_leg_gone channel media legs =
      consent_resolved channel legs (resolve_media p media)

  -- `if consent_media: ...`
  unfoldable pub consent_if : OutboundCall → Option String → Act Bool
  unfolding play_consent_or_leg_gone
  consent_if c none = pure true
  consent_if c (some media) =
      play_consent_or_leg_gone c.callee_channel media (c.operator_channel ∷ c.callee_channel ∷ [])

  unfoldable pub connect : OutboundCall → Option String → Act (Unit {0})
  unfolding add_to_bridge record_bridge await_bridge_end when
  connect c none = pure tt
  connect c (some bridge) = do
    modify (λ s. record s { bridge_id = some bridge })
    joined ← add_to_bridge p bridge (c.operator_channel ∷ c.callee_channel ∷ [])
    if joined
        then (do
          when c.recorded (record_bridge p bridge (c.operator_channel ++ "-outbound"))
          waiting (await_bridge_end p c.operator_channel c.callee_channel)
          pure tt)
        else pure tt

  unfoldable pub callee_up : OutboundCall → Act (Unit {0})
  unfolding consent_if given create_bridge connect
  callee_up c = do
    proceed ← consent_if c (given c.consent_media)
    if proceed then (do bridge ← create_bridge p; connect c bridge) else pure tt

  unfoldable pub outbound_variables : OutboundCall → Dict
  outbound_variables c =
      ("X_OWEN_DIRECTION", str "outbound") ∷ ("X_OWEN_FROM", str c.from_number) ∷ []

  unfoldable pub operator_up : OutboundCall → Act (Unit {0})
  unfolding originate_with_id await_channel_up callee_up outbound_variables
  operator_up c = do
    rung ←
        originate_with_id c.callee_channel ("PJSIP/" ++ c.callee_number ++ "@" ++ c.trunk_name)
          (some c.from_number) (some c.operator_channel) (outbound_variables c)
          (some c.answer_timeout)
    if rung
        then (do
          up ← waiting (await_channel_up p c.callee_channel (c.operator_channel ∷ []))
          if up then callee_up c else pure tt)
        else pure tt

  unfoldable pub outbound_body : OutboundCall → Act (Unit {0})
  unfolding originate_with_id await_channel_up operator_up outbound_variables
  outbound_body c = do
    rung ←
        originate_with_id c.operator_channel c.operator_endpoint (some c.callee_number) none
          (outbound_variables c) none
    if rung
        then (do
          up ← waiting (await_channel_up p c.operator_channel [])
          if up then operator_up c else pure tt)
        else pure tt

  -- `finally`: the watchers go, the bridge goes, and both legs are hung up.
  unfoldable pub outbound_cleanup : ℕ → OutboundCall → Act (Unit {0})
  unfolding unwatch destroy_made
  outbound_cleanup queue c = do
    on_queues (unwatch queue (c.operator_channel ∷ c.callee_channel ∷ []))
    bridge ← gets (λ s. s.bridge_id)
    destroy_made p bridge
    tell p (delete_channel c.callee_channel)
    tell p (delete_channel c.operator_channel)

  unfoldable pub run_outbound_call : OutboundCall → Act (Unit {0})
  unfolding watch outbound_body outbound_cleanup
  run_outbound_call c = do
    queue ← registering (watch (c.operator_channel ∷ c.callee_channel ∷ []))
    modify (λ s. record s { bridge_id = none })
    ensuring (rescue (outbound_body c) (pure tt)) (outbound_cleanup queue c)

  -- `snoop` calls `self._request`, which neither the class nor a parent of it has: `AttributeError`.
  unfoldable pub snoop : String → Act (Option String)
  snoop channel s = (stopped failure, s)
