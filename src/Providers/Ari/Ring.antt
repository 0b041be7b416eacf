-- ===== src/Providers/Ari/Ring.antt =====
-- `dial_operator`, `available_operators` and `ring_and_bridge` of
-- backend/app/providers/asterisk_client.py.
use owen_main.Common.{
  ℕ, String, List, [], ◌∷◌, ◌&&◌, Option, none, some, str_eq, map, if◌then◌else◌,
}
use Prim.Native.String.{◌++◌}
use owen_main.Common.Json.{Value, list, elements, get, as_dict}
use owen_main.Common.Chars.{starts_with}
use owen_main.Flows.Dtmf.{watch, unwatch}
use owen_main.Providers.Ari.Client.{
  Platform, Act, ◌>>=◌, ◌>>◌, pure, gets, modify, waiting, registering, on_queues, note_dial,
  ensuring, rescue, ask, tell, originate, delete_channel, list_endpoints,
}
use owen_main.Providers.Ari.Events.{text_or_empty}
use owen_main.Providers.Ari.Waits.{await_first_answer, await_bridge_end}
use owen_main.Providers.Ari.Channels.{create_bridge, add_to_bridge, record_bridge}
use owen_main.Providers.Ari.Dial.{flow_dial_arg, ring_time, given, when_some, new_leg, destroy_made}

-- `[e for e in endpoints if e]`
unfoldable pub non_empty : List String → List String
non_empty [] = []
non_empty (e ∷ es) = let rest = non_empty es in if str_eq e "" then rest else e ∷ rest

-- The channels of `legs`, a dict from channel to endpoint.
abbrev pub leg_ids : List (String × String) → List String
leg_ids [] = []
leg_ids (l ∷ ls) = l.0 ∷ leg_ids ls

-- `list(legs.keys()) + [channel_id]`
abbrev pub watched_ids : String → List (String × String) → List String
watched_ids channel [] = channel ∷ []
watched_ids channel (l ∷ ls) = l.0 ∷ watched_ids channel ls

module _ (p : Platform) where
  unfoldable pub new_legs : List String → Act (List (String × String))
  unfolding new_leg
  new_legs [] = pure []
  new_legs (e ∷ es) = do out ← new_leg p; rest ← new_legs es; pure ((out, e) ∷ rest)

  unfoldable pub ring_legs : String → Option String → ℕ → List (String × String) → Act (Unit {0})
  unfolding given
  ring_legs channel caller_id timeout [] = pure tt
  ring_legs channel caller_id timeout ((out, endpoint) ∷ legs) = do
    ask p (
        originate (record {
          endpoint = endpoint;
          app_args = some flow_dial_arg;
          leg = some out;
          originator = some channel;
          caller_id = given caller_id;
          ring_timeout = some timeout;
          variables = [];
        }))
    ring_legs channel caller_id timeout legs

  -- Every leg but the one that answered.
  unfoldable pub drop_losers : String → List String → Act (Unit {0})
  drop_losers winner [] = pure tt
  drop_losers winner (l ∷ ls) =
      if str_eq l winner
      then drop_losers winner ls
      else (do tell p (delete_channel l); drop_losers winner ls)

  unfoldable pub drop_legs : List String → Act (Unit {0})
  drop_legs [] = pure tt
  drop_legs (l ∷ ls) = do tell p (delete_channel l); drop_legs ls

  unfoldable pub bridge_winner : String → String → Option String → Option String → Act String
  unfolding add_to_bridge record_bridge await_bridge_end when_some
  bridge_winner channel winner record_name none = pure "failed"
  bridge_winner channel winner record_name (some bridge) = do
    modify (λ s. record s { bridge_id = some bridge })
    joined ← add_to_bridge p bridge (channel ∷ winner ∷ [])
    if joined
        then (do
          when_some record_name (record_bridge p bridge)
          info ← waiting (await_bridge_end p channel winner)
          note_dial info
          pure "answered")
        else pure "failed"

  unfoldable pub ring_answered : String → List String → Option String → Option String → Act String
  unfolding drop_losers create_bridge bridge_winner
  ring_answered channel legs record_name none = pure "noanswer"
  ring_answered channel legs record_name (some winner) = do
    drop_losers winner legs
    bridge ← create_bridge p
    bridge_winner channel winner record_name bridge

  unfoldable pub ring_body :
      String → Option String → ℕ → Option String → List (String × String) → Act String
  unfolding ring_legs await_first_answer ring_answered
  ring_body channel caller_id timeout record_name legs = do
    ring_legs channel caller_id timeout legs
    winner ← waiting (await_first_answer p channel (leg_ids legs))
    ring_answered channel (leg_ids legs) record_name winner

  -- `finally`: the watchers go, the bridge goes, and every leg is hung up.
  unfoldable pub ring_cleanup : ℕ → List String → List String → Act (Unit {0})
  unfolding unwatch destroy_made drop_legs
  ring_cleanup queue watched legs = do
    on_queues (unwatch queue watched)
    bridge ← gets (λ s. s.bridge_id)
    destroy_made p bridge
    drop_legs legs

  unfoldable pub ring_all :
      String → Option String → ℕ → Option String → List (String × String) → Act String
  unfolding watch ring_body ring_cleanup
  ring_all channel caller_id timeout record_name legs = do
    queue ← registering (watch (watched_ids channel legs))
    modify (λ s. record s { last_dial = []; bridge_id = none })
    ensuring (rescue (ring_body channel caller_id timeout record_name legs) (pure "failed"))
        (ring_cleanup queue (watched_ids channel legs) (leg_ids legs))

  unfoldable pub ring_named : String → Option String → ℕ → Option String → List String → Act String
  unfolding new_legs ring_all ring_time
  ring_named channel caller_id timeout record_name [] = pure "noanswer"
  ring_named channel caller_id timeout record_name (e ∷ es) = do
    legs ← new_legs (e ∷ es)
    ring_all channel caller_id (ring_time 25 timeout) record_name legs

  unfoldable pub ring_and_bridge :
      String → List String → Option String → ℕ → Option String → Act String
  unfolding ring_named non_empty
  ring_and_bridge channel endpoints caller_id timeout record_name =
      ring_named channel caller_id timeout record_name (non_empty endpoints)

  -- `operator_dial_endpoint` is a parameter: the name of the endpoint of an operator.
  unfoldable pub dial_operator :
      (String → String) → String → List String → Option String → ℕ → Option String → Act String
  unfolding ring_and_bridge non_empty
  dial_operator dial_endpoint channel operators caller_id timeout record_name =
      elim (map dial_endpoint (non_empty operators)) [
        | [] ↦ pure "failed"
        | e ∷ es ↦ ring_and_bridge channel (e ∷ es) caller_id timeout record_name
      ]

  endpoint_online : Value → Option String
  unfolding text_or_empty starts_with
  endpoint_online v = elim (as_dict v) [
    | none ↦ none
    | some ep ↦
        (let resource = text_or_empty (get "resource" ep) in
          if str_eq (p.upper (text_or_empty (get "technology" ep))) "PJSIP"
            && (starts_with "operator-" resource
                && str_eq (p.lower (text_or_empty (get "state" ep))) "online")
          then some ("PJSIP/" ++ resource)
          else none)
  ]

  online_of : List Value → List String
  unfolding endpoint_online
  online_of [] = []
  online_of (v ∷ vs) =
      let rest = online_of vs in elim (endpoint_online v) [ none ↦ rest | some e ↦ e ∷ rest ]

  endpoints_of : Value → List Value
  endpoints_of (list vs) = elements vs
  endpoints_of _ = []

  -- `available_operators`; a refused request is answered with `null`.
  unfoldable pub available_operators : Act (List String)
  unfolding online_of endpoints_of
  available_operators = do reply ← ask p list_endpoints; pure (online_of (endpoints_of reply))
