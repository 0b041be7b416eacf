-- ===== src/Telephony/Monitor.antt =====
-- backend/app/telephony/monitor.py: a supervisor listens to a live call, or takes it over. The ARI
-- client answers by the calls made before; the events of a channel that arrive before the deadline
-- are a list. Registering the event queue, logging and the ring time are left out.
pub mod Desk
pub mod Takeover
pub mod Stranded
mod Examples
use owen_main.Common.{
  String, List, [], ◌∷◌, Bool, true, false, Option, none, some, Result, ok, raise, contains, str_eq,
  if◌then◌else◌,
}
use owen_main.Common.Json.{Value, str, Dict, get, as_dict, is_text, truthy}
use owen_main.Common.Print.{str_of}
use owen_main.Telephony.Ownership.{claim, add_channel, owner_of}
use owen_main.Telephony.Monitor.Desk.{
  Ari, Act, ◌>>=◌, ◌>>◌, pure, owning, seen, tell, succeeds, made, originate, hangup, snoop,
  create_bridge, add_to_bridge, destroy_bridge,
}

unfoldable pub leg_gone : List String
leg_gone = "StasisEnd" ∷ "ChannelDestroyed" ∷ "ChannelHangupRequest" ∷ []

gone_type : Value → Bool
unfolding leg_gone contains
gone_type (str s) = contains s leg_gone
gone_type _ = false

channel_of : Dict → Dict
channel_of event = elim (as_dict (get "channel" event)) [ none ↦ [] | some d ↦ d ]

text_or_empty : Value → String
text_or_empty v = if truthy v then str_of v else ""

-- `_wait_for_stasis` on the events that arrive before the deadline.
unfoldable pub wait_for_stasis : String → List Value → Bool
unfolding gone_type channel_of text_or_empty
wait_for_stasis channel [] = false
wait_for_stasis channel (e ∷ es) =
    let rest = wait_for_stasis channel es in
    elim (as_dict e) [
      | none ↦ rest
      | some event ↦
          if str_eq (text_or_empty (get "id" (channel_of event))) channel
          then (if is_text "StasisStart" (get "type" event)
              then true
              else if gone_type (get "type" event)
              then false
              else rest)
          else rest
    ]

-- What the two operations return: the ids of a listen, the bridge and owner of a take-over, or the
-- reason for which it failed (with the owner, where there is one).
pub data Outcome : Type 0 where
  listening : String → String → String → Outcome
  taken : String → String → Outcome
  refused : String → Option String → Outcome

unfoldable pub failed : String → Act Outcome
failed reason = pure (refused reason none)

-- `if channel_id: await ...`
unfoldable pub when_named : Option String → (String → Act (Unit {0})) → Act (Unit {0})
when_named none f = pure tt
when_named (some c) f = if str_eq c "" then pure tt else f c

module _ (ari : Ari) where
  bridged : String → String → Option String → Act Bool
  bridged snoop_id operator_channel none = pure false
  bridged snoop_id operator_channel (some bridge) =
      if str_eq bridge ""
      then pure false
      else succeeds ari (add_to_bridge bridge (snoop_id ∷ operator_channel ∷ []))

  unfoldable pub listen_bridge : String → String → Act Outcome
  unfolding bridged failed
  listen_bridge snoop_id operator_channel = do
    bridge ← made ari create_bridge
    joined ← bridged snoop_id operator_channel bridge
    if joined
        then pure (listening operator_channel snoop_id (elim bridge [ none ↦ "" | some b ↦ b ]))
        else (do
          tell ari (hangup snoop_id)
          tell ari (hangup operator_channel)
          failed "bridge_failed")

  unfoldable pub listen_snoop : String → Option String → Act Outcome
  unfolding listen_bridge failed
  listen_snoop operator_channel none = do tell ari (hangup operator_channel); failed "snoop_failed"
  listen_snoop operator_channel (some snoop_id) =
      if str_eq snoop_id ""
      then (do tell ari (hangup operator_channel); failed "snoop_failed")
      else listen_bridge snoop_id operator_channel

  -- `events` are those of the operator's channel queue.
  unfoldable pub start_listen : List Value → String → String → String → String → Act Outcome
  unfolding wait_for_stasis listen_snoop failed
  start_listen events operator target linkedid operator_channel = do
    rung ← succeeds ari (originate operator_channel operator linkedid)
    if rung
        then (if wait_for_stasis operator_channel events
            then (do snoop_id ← made ari (snoop target); listen_snoop operator_channel snoop_id)
            else (do tell ari (hangup operator_channel); failed "operator_no_answer"))
        else failed "operator_originate_failed"

  -- The bridge that the call has (see `call_bridge`), or a new one with the caller in it.
  unfoldable pub enter_bridge : String → Option String → Act (Option String)
  enter_bridge target none = pure none
  enter_bridge target (some b) =
      if str_eq b ""
      then pure none
      else (do succeeds ari (add_to_bridge b (target ∷ [])); pure (some b))

  unfoldable pub fresh_bridge : String → Act (Option String)
  unfolding enter_bridge
  fresh_bridge target = do bridge ← made ari create_bridge; enter_bridge target bridge

  unfoldable pub call_bridge : String → Option String → Act (Option String)
  unfolding fresh_bridge
  call_bridge target none = fresh_bridge target
  call_bridge target (some b) = if str_eq b "" then fresh_bridge target else pure (some b)

  -- The operator joins the caller.
  unfoldable pub join : String → String → String → Option String → Act Outcome
  unfolding failed
  join operator linkedid operator_channel none = failed "bridge_failed"
  join operator linkedid operator_channel (some bridge) = do
    joined ← succeeds ari (add_to_bridge bridge (operator_channel ∷ []))
    if joined
        then (do
          owning (λ r. (tt, add_channel linkedid operator_channel r))
          pure (taken bridge operator))
        else failed "operator_bridge_failed"

  -- What follows the claim.
  unfoldable pub seize :
      String
      → String
      → String
      → String
      → Option String
      → Option String
      → Option String
      → Option String
      → Act Outcome
  unfolding when_named call_bridge join
  seize operator linkedid target operator_channel given snoop_channel monitor_bridge agent_channel =
      do
        when_named snoop_channel (λ c. tell ari (hangup c))
        when_named monitor_bridge (λ b. tell ari (destroy_bridge b))
        when_named agent_channel (λ c. tell ari (hangup c))
        bridge ← call_bridge target given
        join operator linkedid operator_channel bridge

  unfoldable pub take_over :
      String
      → String
      → String
      → String
      → Option String
      → Option String
      → Option String
      → Option String
      → Act Outcome
  unfolding seize claim
  take_over operator linkedid target operator_channel given snoop_channel monitor_bridge
        agent_channel =
      do
        owned ← owning (claim linkedid operator (target ∷ operator_channel ∷ []) "takeover")
        if owned
            then seize operator linkedid target operator_channel given snoop_channel monitor_bridge
                agent_channel
            else (do owner ← seen (owner_of linkedid); pure (refused "already_owned" owner))

  unfoldable pub stop_listen : Option String → Option String → Option String → Act (Unit {0})
  unfolding when_named
  stop_listen snoop_channel operator_channel monitor_bridge = do
    when_named snoop_channel (λ c. tell ari (hangup c))
    when_named operator_channel (λ c. tell ari (hangup c))
    when_named monitor_bridge (λ b. tell ari (destroy_bridge b))
