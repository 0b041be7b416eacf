-- ===== src/Providers/Ari/Events.antt =====
-- Channel events as the waits of backend/app/providers/asterisk_client.py read them.
use owen_main.Common.{
  ℕ, String, List, [], ◌∷◌, Bool, false, ◌&&◌, ◌||◌, none, some, ◌==◌, contains, str_eq,
  if◌then◌else◌,
}
use owen_main.Common.Json.{Value, null, int, str, Dict, get, as_dict, truthy, is_text}
use owen_main.Common.Print.{str_of}
use owen_main.Common.Chars.{strip}
use owen_main.Providers.Ari.Client.{Platform}

abbrev pub platform_answer_ms : ℕ
platform_answer_ms = 2500

unfoldable pub leg_gone_events : List String
leg_gone_events = "ChannelHangupRequest" ∷ "StasisEnd" ∷ "ChannelDestroyed" ∷ []

unfoldable pub event_channel : Dict → Dict
event_channel e = elim (as_dict (get "channel" e)) [ none ↦ [] | some d ↦ d ]

unfoldable pub text_or_empty : Value → String
text_or_empty v = if truthy v then str_of v else ""

unfoldable pub event_channel_id : Dict → String
unfolding event_channel text_or_empty
event_channel_id e = text_or_empty (get "id" (event_channel e))

text_in : List String → Value → Bool
unfolding contains
text_in texts (str s) = contains s texts
text_in texts _ = false

-- `etype in _LEG_GONE_EVENTS`
unfoldable pub is_gone : Dict → Bool
unfolding text_in leg_gone_events
is_gone e = text_in leg_gone_events (get "type" e)

unfoldable pub is_destroyed : Dict → Bool
is_destroyed e = is_text "ChannelDestroyed" (get "type" e)

-- `_cause_txt`
unfoldable pub cause_txt : Dict → Value
unfolding text_or_empty strip
cause_txt e =
    let txt = strip (text_or_empty (get "cause_txt" e)) in if str_eq txt "" then null else str txt

-- `str(ch.get("name") or "") or None`
unfoldable pub channel_name : Dict → Value
unfolding event_channel text_or_empty
channel_name e =
    let name = text_or_empty (get "name" (event_channel e)) in
    if str_eq name "" then null else str name

-- `isinstance(created, dict) and created.get("id")`
unfoldable pub has_id : Value → Bool
has_id v = elim (as_dict v) [ none ↦ false | some d ↦ truthy (get "id" d) ]

abbrev pub ms : ℕ → Value
ms n = int false n

module _ (p : Platform) where
  -- `_cause_of`
  unfoldable pub cause_of : Dict → Value
  cause_of e = elim (p.as_int (get "cause" e)) [ none ↦ null | some n ↦ n ]

  -- `_DIAL_CAUSE_PORTS.get(cause, "failed")`
  unfoldable pub dial_cause_port : Value → String
  dial_cause_port (int false n) =
      if n == 17
      then "busy"
      else if n == 18
      then "noanswer"
      else if n == 19
      then "noanswer"
      else if n == 21
      then "noanswer"
      else "failed"
  dial_cause_port _ = "failed"

  -- The leg's `StasisStart`, or its `ChannelStateChange` to Up.
  unfoldable pub is_up : Dict → Bool
  unfolding event_channel text_or_empty
  is_up e =
      is_text "StasisStart" (get "type" e)
      || (is_text "ChannelStateChange" (get "type" e)
          && str_eq (p.lower (text_or_empty (get "state" (event_channel e)))) "up")
