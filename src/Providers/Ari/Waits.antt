-- ===== src/Providers/Ari/Waits.antt =====
-- The loops of `AsteriskAriClient` that wait for events: each takes the arrivals one by one, and gives
-- back those that are left. An arrival of a kind that its queues do not carry is passed over.
use owen_main.Common.{
  ℕ, String, List, [], ◌∷◌, Bool, true, false, not, ◌&&◌, ◌||◌, Option, none, some, ltb, contains,
  str_eq, if◌then◌else◌,
}
use owen_main.Common.Json.{null, str, bool, Dict, get, is_text}
use owen_main.Common.Store.{update, set_item}
use owen_main.Providers.Ari.Client.{
  Platform, Answer, returned, stopped, Arrival, event, digit, silence, trouble,
}
use owen_main.Providers.Ari.Events.{
  platform_answer_ms, event_channel_id, is_gone, is_destroyed, cause_txt, channel_name, ms,
  cause_of, dial_cause_port, is_up,
}

abbrev pub Wait : Type 0 → Type 0
Wait A = List Arrival → Answer A × List Arrival

-- `c in ids`
abbrev one_of : String → List String → Bool
one_of c ids = contains c ids

module _ (p : Platform) where
  -- What an event means to a dial that rings: nothing, or the port and the facts about it.
  unfoldable pub answer_step : String → String → ℕ → Dict → Option (String × Dict)
  unfolding event_channel_id is_gone is_destroyed cause_txt channel_name cause_of dial_cause_port
      is_up
  answer_step channel out at e =
      let from = event_channel_id e in
      if str_eq from channel
      then (if is_gone e
          then some (
            "failed",
            ("dial_ring_ms", ms at)
                ∷ ("dial_ended_by", str "caller")
                ∷ ("dial_end_stage", str "ringing")
                ∷ [],
          )
          else none)
      else if not (str_eq from out)
      then none
      else if is_destroyed e
      then some (
        dial_cause_port p (cause_of p e),
        ("dial_ring_ms", ms at)
            ∷ ("dial_ended_by", str "dialed")
            ∷ ("dial_end_stage", str "ringing")
            ∷ ("dial_end_cause", cause_of p e)
            ∷ ("dial_end_cause_txt", cause_txt e)
            ∷ ("dial_out_channel", channel_name e)
            ∷ [],
      )
      else if is_up p e
      then some (
        "answered",
        ("dial_answer_ms", ms at)
            ∷ ("dial_answer_platform", bool (ltb at platform_answer_ms))
            ∷ ("dial_out_channel", channel_name e)
            ∷ [],
      )
      else none

  -- `_await_dial_answer`
  unfoldable pub await_dial_answer : String → String → Wait (String × Dict)
  unfolding answer_step
  await_dial_answer channel out [] = (returned ("noanswer", ("dial_ring_ms", ms 0) ∷ []), [])
  await_dial_answer channel out (silence at ∷ rest) =
      (returned ("noanswer", ("dial_ring_ms", ms at) ∷ []), rest)
  await_dial_answer channel out (trouble t ∷ rest) = (stopped t, rest)
  await_dial_answer channel out (digit d ∷ rest) = await_dial_answer channel out rest
  await_dial_answer channel out (event at e ∷ rest) =
      let later = await_dial_answer channel out rest in
      elim (answer_step channel out at e) [ none ↦ later | some found ↦ (returned found, rest) ]

  with_cause : Dict → Dict → Dict
  unfolding cause_of cause_txt update
  with_cause e info =
      update info (("dial_end_cause", cause_of p e) ∷ ("dial_end_cause_txt", cause_txt e) ∷ [])

  -- The rest of `_await_bridge_end`, once a leg has gone: its cause may still arrive.
  unfoldable pub await_cause : String → Dict → Wait Dict
  unfolding with_cause event_channel_id is_destroyed
  await_cause gone info [] = (returned info, [])
  await_cause gone info (silence at ∷ rest) = (returned info, rest)
  await_cause gone info (trouble t ∷ rest) = (stopped t, rest)
  await_cause gone info (digit d ∷ rest) = await_cause gone info rest
  await_cause gone info (event at e ∷ rest) =
      let later = await_cause gone info rest in
      if str_eq (event_channel_id e) gone && is_destroyed e
      then (returned (with_cause e info), rest)
      else later

  -- What is known when the first leg goes.
  gone_info : String → ℕ → Dict → Dict
  unfolding event_channel_id channel_name set_item
  gone_info out at e =
      let by_dialed = str_eq (event_channel_id e) out in
      let info =
        ("dial_ended_by", str (if by_dialed then "dialed" else "caller"))
        ∷ ("dial_end_stage", str "bridged")
        ∷ ("dial_end_event", get "type" e)
        ∷ ("dial_talk_ms", ms at)
        ∷ [] in
      elim (channel_name e) [
        | null ↦ info
        | name ↦ if by_dialed then set_item "dial_out_channel" name info else info
      ]

  -- `_await_bridge_end`
  unfoldable pub await_bridge_end : String → String → Wait Dict
  unfolding await_cause gone_info event_channel_id is_gone is_destroyed with_cause contains
  await_bridge_end channel out [] =
      (returned (("dial_ended_by", str "max_duration") ∷ ("dial_talk_ms", ms 0) ∷ []), [])
  await_bridge_end channel out (silence at ∷ rest) =
      (returned (("dial_ended_by", str "max_duration") ∷ ("dial_talk_ms", ms at) ∷ []), rest)
  await_bridge_end channel out (trouble t ∷ rest) = (stopped t, rest)
  await_bridge_end channel out (digit d ∷ rest) = await_bridge_end channel out rest
  await_bridge_end channel out (event at e ∷ rest) =
      let later = await_bridge_end channel out rest in
      if one_of (event_channel_id e) (channel ∷ out ∷ []) && is_gone e
      then (if is_destroyed e
          then (returned (with_cause e (gone_info out at e)), rest)
          else await_cause (event_channel_id e) (gone_info out at e) rest)
      else later

  -- `pending.discard(cid)`
  discard : String → List String → List String
  discard c [] = []
  discard c (d ∷ ds) = let rest = discard c ds in if str_eq d c then rest else d ∷ rest

  -- `_await_first_answer`: over when no leg is pending.
  unfoldable pub await_first_answer : String → List String → Wait (Option String)
  unfolding event_channel_id is_gone is_destroyed is_up discard contains
  await_first_answer channel [] arrivals = (returned none, arrivals)
  await_first_answer channel (l ∷ legs) [] = (returned none, [])
  await_first_answer channel (l ∷ legs) (silence at ∷ rest) = (returned none, rest)
  await_first_answer channel (l ∷ legs) (trouble t ∷ rest) = (stopped t, rest)
  await_first_answer channel (l ∷ legs) (digit d ∷ rest) =
      await_first_answer channel (l ∷ legs) rest
  await_first_answer channel (l ∷ legs) (event at e ∷ rest) =
      let from = event_channel_id e in
      let fewer = await_first_answer channel (discard from (l ∷ legs)) rest in
      let later = await_first_answer channel (l ∷ legs) rest in
      if str_eq from channel
      then (if is_gone e then (returned none, rest) else later)
      else if not (one_of from (l ∷ legs))
      then later
      else if is_destroyed e
      then fewer
      else if is_up p e
      then (returned (some from), rest)
      else later

  -- `_await_channel_up`
  unfoldable pub await_channel_up : String → List String → Wait Bool
  unfolding event_channel_id is_gone is_destroyed is_up contains
  await_channel_up channel abort [] = (returned false, [])
  await_channel_up channel abort (silence at ∷ rest) = (returned false, rest)
  await_channel_up channel abort (trouble t ∷ rest) = (stopped t, rest)
  await_channel_up channel abort (digit d ∷ rest) = await_channel_up channel abort rest
  await_channel_up channel abort (event at e ∷ rest) =
      let later = await_channel_up channel abort rest in
      if one_of (event_channel_id e) abort && is_gone e
      then (returned false, rest)
      else if not (str_eq (event_channel_id e) channel)
      then later
      else if is_destroyed e
      then (returned false, rest)
      else if is_up p e
      then (returned true, rest)
      else later

  -- The loop of `_play_consent_or_leg_gone`.
  unfoldable pub await_consent : List String → Wait Bool
  unfolding event_channel_id is_gone contains
  await_consent legs [] = (returned true, [])
  await_consent legs (silence at ∷ rest) = (returned true, rest)
  await_consent legs (trouble t ∷ rest) = (stopped t, rest)
  await_consent legs (digit d ∷ rest) = await_consent legs rest
  await_consent legs (event at e ∷ rest) =
      let later = await_consent legs rest in
      if is_text "PlaybackFinished" (get "type" e)
      then (returned true, rest)
      else if one_of (event_channel_id e) legs && is_gone e
      then (returned false, rest)
      else later

  -- `_await_voicemail_end`
  unfoldable pub await_voicemail_end : Wait (Unit {0})
  unfolding is_gone
  await_voicemail_end [] = (returned tt, [])
  await_voicemail_end (silence at ∷ rest) = (returned tt, rest)
  await_voicemail_end (trouble t ∷ rest) = (stopped t, rest)
  await_voicemail_end (digit d ∷ rest) = await_voicemail_end rest
  await_voicemail_end (event at e ∷ rest) =
      let later = await_voicemail_end rest in
      if is_text "RecordingFinished" (get "type" e) || is_gone e then (returned tt, rest) else later
