-- ===== src/Providers/Asterisk.antt =====
-- backend/app/providers/asterisk.py: an ARI event is normalized into an event of a call, and the router
-- passes each status of a call on once. `_parse_ts` is a parameter; a number that is false and no text
-- reads as none, and an `AttributeError` is a type error. The type of
-- an event that is no text goes into the event of the call as its `str`; `int` on an infinite number is not modelled.
pub mod Router
pub mod Passing
pub mod Reconcile
pub mod Records
mod Examples
use Prim.Native.Char.{Char, code}
use Prim.Native.String.{◌++◌}
use owen_main.Common.{
  ℕ, String, List, [], ◌∷◌, Bool, true, false, ◌&&◌, ◌||◌, not, Option, none, some, leb, ◌==◌,
  contains, str_eq, length, Result, ok, raise, type_error, ◌>>=◌, if◌then◌else◌,
}
use owen_main.Common.Assoc.{lookup}
use owen_main.Common.Json.{
  Value, null, bool, int, float, str, list, dict, Dict, elements, get, as_dict, truthy, is_text,
  hashable,
}
use owen_main.Common.Print.{str_of}
use owen_main.Common.Chars.{codes, text_of, strip, starts_with}
use owen_main.Services.Ingestion.{NormalizedCallEvent, rank_table}

-- The parts of Python: `str.lower`, `str.isdigit` of a character, `int`, and the time of an event.
pub record Reader : Type 0 where
  pub lower : String → String
  pub is_digit : Char → Bool
  pub as_int : Value → Option Value
  pub parse_ts : Dict → Option ℕ

abbrev pub cause_to_status : List (ℕ × String)
cause_to_status =
    (16, "completed")
    ∷ (17, "busy")
    ∷ (18, "no-answer")
    ∷ (19, "no-answer")
    ∷ (21, "no-answer")
    ∷ []

abbrev pub state_to_status : List (String × String)
state_to_status = ("ring", "ringing") ∷ ("ringing", "ringing") ∷ ("up", "in-progress") ∷ []

status_of_cause : List (ℕ × String) → ℕ → String
status_of_cause [] n = "failed"
status_of_cause ((k, s) ∷ rest) n =
    let later = status_of_cause rest n in if k == n then s else later

unfoldable pub channel : Dict → Dict
channel e = elim (as_dict (get "channel" e)) [ none ↦ [] | some d ↦ d ]

-- `str(x or "")`
text_of_value : Value → String
text_of_value v = if truthy v then str_of v else ""

unfoldable pub channelvar : Dict → String → Option String
unfolding channel
channelvar e key = elim (as_dict (get "channelvars" (channel e))) [
  | none ↦ none
  | some cv ↦ if truthy (get key cv) then some (str_of (get key cv)) else none
]

unfoldable pub channel_id : Dict → String
unfolding channel text_of_value
channel_id e = text_of_value (get "id" (channel e))

unfoldable pub linkedid : Dict → String
unfolding channelvar channel_id
linkedid e = elim (channelvar e "CHANNEL(linkedid)") [
  | some l ↦ l
  | none ↦ elim (channelvar e "Linkedid") [ some l ↦ l | none ↦ channel_id e ]
]

unfoldable pub is_entry_channel : Dict → Bool
unfolding channel_id linkedid
is_entry_channel e = not (str_eq (channel_id e) "") && str_eq (channel_id e) (linkedid e)

has_text : String → List Value → Bool
has_text t [] = false
has_text t (v ∷ vs) = let rest = has_text t vs in if is_text t v then true else rest

argued : String → Value → Bool
unfolding has_text
argued t (list vs) = has_text t (elements vs)
argued t _ = false

unfoldable pub is_flow_dial_leg : Dict → Bool
unfolding argued channel_id starts_with
is_flow_dial_leg e = argued "flow-dial" (get "args" e) || starts_with "flow-dial-" (channel_id e)

unfoldable pub is_agent_outbound_leg : Dict → Bool
unfolding argued channel_id starts_with
is_agent_outbound_leg e =
    argued "agent-outbound" (get "args" e) || starts_with "agentout" (channel_id e)

-- `(x or {}).get(key)`
member : Value → String → Result Value
member v key =
    if truthy v
    then elim (as_dict v) [ none ↦ raise type_error | some d ↦ ok (get key d) ]
    else ok null

abbrev pub or_value : Option String → Value → Value
or_value none v = v
or_value (some s) v = str s

module _ (rd : Reader) where
  unfoldable pub direction : Dict → String
  unfolding channelvar strip
  direction e = elim (channelvar e "X_OWEN_DIRECTION") [
    | none ↦ "inbound"
    | some d ↦ if str_eq (rd.lower (strip d)) "outbound" then "outbound" else "inbound"
  ]

  unfoldable pub is_outbound_leg : Dict → Bool
  unfolding direction
  is_outbound_leg e = str_eq (direction e) "outbound"

  of_cause : Option Value → String
  unfolding status_of_cause
  of_cause (some (int false n)) = status_of_cause cause_to_status n
  of_cause _ = "failed"

  of_type : Dict → Option String
  unfolding lookup channel text_of_value of_cause
  of_type e =
      if is_text "ChannelStateChange" (get "type" e)
      then lookup (rd.lower (text_of_value (get "state" (channel e)))) state_to_status
      else if is_text "ChannelDestroyed" (get "type" e)
      then some (of_cause (rd.as_int (get "cause" e)))
      else if is_text "StasisStart" (get "type" e)
      then some "initiated"
      else none

  unfoldable pub status_for : Dict → Result (Option String)
  unfolding of_type
  status_for e = if hashable (get "type" e) then ok (of_type e) else raise type_error

  digits_in : List Char → List Char
  digits_in [] = []
  digits_in (c ∷ cs) = let rest = digits_in cs in if rd.is_digit c then c ∷ rest else rest

  after_plus : List Char → String → String
  after_plus [] raw = raw
  after_plus (c ∷ cs) raw = "+" ++ text_of (c ∷ cs)

  begins : ℕ → List Char → Bool
  begins k [] = false
  begins k (c ∷ cs) = code c == k

  tail_of : List Char → List Char
  tail_of [] = []
  tail_of (c ∷ cs) = cs

  -- `_to_e164` of a text, from backend/app/providers/bulkvs.py.
  unfoldable pub to_e164 : String → String
  unfolding strip digits_in after_plus begins tail_of
  to_e164 tn =
      let raw = strip tn in
      let digits = digits_in (codes raw) in
      if begins 43 (codes raw)
      then after_plus (digits_in (tail_of (codes raw))) raw
      else if length digits == 10
      then "+1" ++ text_of digits
      else after_plus digits raw

  -- `_to_e164(x) if x else x`
  unfoldable pub normalized : Value → Result (Option String)
  unfolding to_e164
  normalized (str s) = ok (if str_eq s "" then some s else some (to_e164 s))
  normalized v = if truthy v then raise type_error else ok none

  rank_value : Option String → ℕ
  unfolding lookup
  rank_value none = 0
  rank_value (some s) = elim (lookup (rd.lower s) rank_table) [ none ↦ 0 | some r ↦ r ]

  -- What is made of the parts.
  unfoldable pub call_event :
      Dict → Option String → Option String → Option String → NormalizedCallEvent
  unfolding linkedid direction rank_value
  call_event e status from to =
      let lid = linkedid e in
      let rank = rank_value status in
      let ts = rd.parse_ts e in
      record {
        call_sid = lid;
        event_type = if truthy (get "type" e) then str_of (get "type" e) else "asterisk";
        event_status = status;
        from_number = from;
        to_number = to;
        way = some (direction e);
        begun = if rank == 1 then ts else none;
        answered = elim status [
          | none ↦ none
          | some s ↦ if str_eq s "in-progress" then ts else none
        ];
        ended = if leb 4 rank then ts else none;
        seconds = none;
        forwarded = none;
        sequence = elim status [ none ↦ none | some s ↦ some (lid ++ ":" ++ s) ];
      }

  unfoldable pub parse_status_event : Dict → Result NormalizedCallEvent
  unfolding status_for channel member direction channelvar normalized call_event
  parse_status_event e = do
    status ← status_for e
    exten ← member (get "dialplan" (channel e)) "exten"
    caller ← member (get "caller" (channel e)) "number"
    let outbound = str_eq (direction e) "outbound"
    from ← normalized (if outbound then or_value (channelvar e "X_OWEN_FROM") caller else caller)
    to ← normalized (if outbound then or_value (channelvar e "X_OWEN_TO") caller else exten)
    ok (call_event e status from to)
