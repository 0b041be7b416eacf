-- ===== src/Providers/Ari/Dial.antt =====
-- `dial_number`, `originate_sip_leg` and `originate_agent_outbound` of
-- backend/app/providers/asterisk_client.py. A ring time is a whole number of seconds.
use owen_main.Common.{
  ℕ, String, [], ◌∷◌, Bool, true, false, Option, none, some, max, ◌==◌, str_eq, if◌then◌else◌,
}
use Prim.Native.String.{◌++◌}
use owen_main.Common.Json.{str, Dict}
use owen_main.Common.Chars.{strip}
use owen_main.Flows.Dtmf.{watch, unwatch}
use owen_main.Providers.Ari.Client.{
  Platform, Act, returned, ◌>>=◌, ◌>>◌, pure, gets, modify, waiting, registering, on_queues,
  note_dial, ensuring, rescue, ask, tell, new_hex, originate, delete_channel,
}
use owen_main.Providers.Ari.Events.{has_id}
use owen_main.Providers.Ari.Waits.{await_dial_answer, await_bridge_end}
use owen_main.Providers.Ari.Channels.{
  moh_start, moh_stop, create_bridge, add_to_bridge, record_bridge, destroy_bridge,
}

abbrev pub flow_dial_prefix : String
flow_dial_prefix = "flow-dial-"

abbrev pub flow_dial_arg : String
flow_dial_arg = "flow-dial"

abbrev pub agent_outbound_arg : String
agent_outbound_arg = "agent-outbound"

abbrev pub no_caller_leg : String
no_caller_leg = "<no-caller-leg>"

-- `max(1.0, float(timeout_s or default))`
unfoldable pub ring_time : ℕ → ℕ → ℕ
ring_time default timeout = max 1 (if timeout == 0 then default else timeout)

-- `if x: params[...] = x`
unfoldable pub given : Option String → Option String
given none = none
given (some s) = if str_eq s "" then none else some s

-- `if record_name:`
unfoldable pub when_some : Option String → (String → Act (Unit {0})) → Act (Unit {0})
unfolding given
when_some o f = elim (given o) [ none ↦ pure tt | some s ↦ f s ]

unfoldable pub when : Bool → Act (Unit {0}) → Act (Unit {0})
when true m = m
when false m = pure tt

-- The facts of the last dial, given once.
unfoldable pub pop_dial_diagnostics : Act Dict
pop_dial_diagnostics s = (returned s.last_dial, record s { last_dial = [] })

module _ (p : Platform) where
  unfoldable pub new_leg : Act String
  new_leg = do hex ← new_hex p; pure (flow_dial_prefix ++ hex)

  -- The legs talk.
  unfoldable pub talk : String → String → Option String → Option String → Act String
  unfolding add_to_bridge record_bridge await_bridge_end when_some
  talk channel out record_name none = pure "failed"
  talk channel out record_name (some bridge) = do
    modify (λ s. record s { bridge_id = some bridge })
    joined ← add_to_bridge p bridge (channel ∷ out ∷ [])
    if joined
        then (do
          when_some record_name (record_bridge p bridge)
          info ← waiting (await_bridge_end p channel out)
          note_dial info
          pure "answered")
        else pure "failed"

  -- What follows an accepted originate.
  unfoldable pub dial_ringing : String → String → Option String → Bool → Act String
  unfolding await_dial_answer moh_stop create_bridge talk when
  dial_ringing channel out record_name hold_music = do
    (port, info) ← waiting (await_dial_answer p channel out)
    note_dial info
    when hold_music (moh_stop p channel)
    if str_eq port "answered"
        then (do bridge ← create_bridge p; talk channel out record_name bridge)
        else pure port

  unfoldable pub dial_body :
      String → String → String → Option String → ℕ → Option String → Bool → Act String
  unfolding moh_start has_id dial_ringing when given
  dial_body channel out number caller_id timeout record_name hold_music = do
    when hold_music (moh_start p channel)
    created ← ask p (
        originate (record {
          endpoint = "PJSIP/" ++ number ++ "@" ++ p.trunk;
          app_args = some flow_dial_arg;
          leg = some out;
          originator = some channel;
          caller_id = given caller_id;
          ring_timeout = some timeout;
          variables = [];
        }))
    if has_id created then dial_ringing channel out record_name hold_music else pure "failed"

  unfoldable pub destroy_made : Option String → Act (Unit {0})
  unfolding destroy_bridge
  destroy_made none = pure tt
  destroy_made (some bridge) = destroy_bridge p bridge

  -- `finally`: the watchers go, the bridge goes, and the leg is hung up.
  unfoldable pub dial_cleanup : ℕ → String → String → Act (Unit {0})
  unfolding unwatch destroy_made
  dial_cleanup queue channel out = do
    on_queues (unwatch queue (out ∷ channel ∷ []))
    bridge ← gets (λ s. s.bridge_id)
    destroy_made bridge
    tell p (delete_channel out)

  unfoldable pub dial_leg :
      String → String → String → Option String → ℕ → Option String → Bool → Act String
  unfolding watch dial_body dial_cleanup ring_time
  dial_leg channel out number caller_id timeout record_name hold_music = do
    queue ← registering (watch (out ∷ channel ∷ []))
    modify (λ s. record s { last_dial = ("dial_out_leg", str out) ∷ []; bridge_id = none })
    ensuring
        (rescue
          (dial_body channel out number caller_id (ring_time 25 timeout) record_name hold_music)
          (pure "failed"))
        (dial_cleanup queue channel out)

  unfoldable pub dial_number :
      String → String → Option String → ℕ → Option String → Bool → Act String
  unfolding new_leg dial_leg
  dial_number channel number caller_id timeout record_name hold_music = do
    out ← new_leg
    dial_leg channel out number caller_id timeout record_name hold_music

  sip_leg : String → String → String → ℕ → Act String
  unfolding has_id await_dial_answer
  sip_leg channel out endpoint timeout = do
    created ← ask p (
        originate (record {
          endpoint = endpoint;
          app_args = some flow_dial_arg;
          leg = some out;
          originator = some channel;
          caller_id = none;
          ring_timeout = some timeout;
          variables = [];
        }))
    if has_id created
        then (do (port, info) ← waiting (await_dial_answer p channel out); pure port)
        else pure "failed"

  unfoldable pub originate_sip_leg : String → String → String → ℕ → Act String
  unfolding sip_leg ring_time
  originate_sip_leg channel out endpoint timeout =
      rescue (sip_leg channel out endpoint (ring_time 10 timeout)) (pure "failed")

  agent_leg : String → String → String → ℕ → Dict → Act (String × Dict)
  unfolding has_id await_dial_answer
  agent_leg channel number caller_id timeout variables = do
    created ← ask p (
        originate (record {
          endpoint = "PJSIP/" ++ number ++ "@" ++ p.trunk;
          app_args = some agent_outbound_arg;
          leg = some channel;
          originator = none;
          caller_id = some caller_id;
          ring_timeout = some timeout;
          variables = variables;
        }))
    if has_id created
        then waiting (await_dial_answer p no_caller_leg channel)
        else pure ("failed", [])

  unfoldable pub originate_agent_outbound :
      String → String → String → ℕ → Dict → Act (String × Dict)
  unfolding agent_leg ring_time strip
  originate_agent_outbound channel number caller_id timeout variables =
      if str_eq (strip caller_id) ""
      then pure ("failed", [])
      else rescue (agent_leg channel number caller_id (ring_time 30 timeout) variables)
          (pure ("failed", []))
