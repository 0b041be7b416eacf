-- ===== src/Services/Sms.antt =====
-- backend/app/services/sms.py: control keywords, the opt-out state, the gate of a number, and the
-- delivery status of an outbound message. `str.upper` and `str.lower` are parameters.
pub mod Forward
pub mod OptOut
use owen_main.Common.{
  ℕ, String, List, [], ◌∷◌, Bool, true, false, not, Option, none, some, ltb, contains, str_eq,
  if◌then◌else◌,
}
use owen_main.Common.Chars.{strip}

abbrev pub stop_keywords : List String
stop_keywords = "STOP" ∷ "STOPALL" ∷ "UNSUBSCRIBE" ∷ "CANCEL" ∷ "END" ∷ "QUIT" ∷ "OPTOUT" ∷ []

abbrev pub start_keywords : List String
start_keywords = "START" ∷ "YES" ∷ "UNSTOP" ∷ "OPTIN" ∷ []

abbrev pub help_keywords : List String
help_keywords = "HELP" ∷ "INFO" ∷ []

-- The answers of `classify_keyword`.
pub data Keyword : Type 0 where
  stop start help : Keyword

unfoldable pub keyword_of : String → Option Keyword
unfolding contains
keyword_of word =
    if str_eq word ""
    then none
    else if contains word stop_keywords
    then some stop
    else if contains word start_keywords
    then some start
    else if contains word help_keywords
    then some help
    else none

unfoldable pub classify_keyword : (String → String) → Option String → Option Keyword
unfolding keyword_of strip
classify_keyword upper none = none
classify_keyword upper (some body) =
    if str_eq body "" then none else keyword_of (upper (strip body))

abbrev pub opted_out : String
opted_out = "opted_out"

abbrev pub opted_in : String
opted_in = "opted_in"

unfoldable pub next_optout_state : Option String → Option Keyword → Option String
next_optout_state current (some stop) = some opted_out
next_optout_state current (some start) = some opted_in
next_optout_state current (some help) = current
next_optout_state current none = current

unfoldable pub is_opted_out : Option String → Bool
is_opted_out none = false
is_opted_out (some state) = str_eq state opted_out

-- The sentences of `outbound_block_reason`.
pub data BlockReason : Type 0 where
  not_enabled no_campaign : BlockReason

unfoldable pub outbound_block_reason : Bool → Option String → Option BlockReason
outbound_block_reason false campaign = some not_enabled
outbound_block_reason true none = some no_campaign
outbound_block_reason true (some c) = if str_eq c "" then some no_campaign else none

-- `OUTBOUND_STATUS_RANK.get(status, 0)`
unfoldable pub outbound_status_rank : String → ℕ
outbound_status_rank s =
    if str_eq s "queued"
    then 1
    else if str_eq s "sent"
    then 2
    else if str_eq s "delivered"
    then 3
    else if str_eq s "undelivered"
    then 3
    else if str_eq s "failed"
    then 3
    else if str_eq s "blocked"
    then 3
    else 0

-- `(status or "").lower()`
unfoldable pub lowered : (String → String) → Option String → String
lowered lower none = lower ""
lowered lower (some s) = lower s

unfoldable pub advance_status : (String → String) → Option String → Option String → Option String
unfolding lowered outbound_status_rank
advance_status lower current new =
    let new_rank = outbound_status_rank (lowered lower new) in
    let current_rank = outbound_status_rank (lowered lower current) in
    if ltb current_rank new_rank then some (lowered lower new) else current
