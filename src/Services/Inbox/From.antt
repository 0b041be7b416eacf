-- ===== src/Services/Inbox/From.antt =====
-- The number from which a reply goes out: `resolve_sms_from` and `resolve_call_from` of
-- backend/app/services/inbox_threads.py.
use owen_main.Common.{
  Bool, true, false, ◌&&◌, not, Option, none, some, is_some, str_eq, if◌then◌else◌,
}
use owen_main.Services.Sms.{BlockReason, outbound_block_reason}
use owen_main.Services.Inbox.{DidRef}

-- `sticky and sticky.number_id`
unfoldable pub has_number : Option DidRef → Bool
has_number none = false
has_number (some d) = elim d.number_id [ none ↦ false | some n ↦ not (str_eq n "") ]

-- The reasons that an SMS is not sent.
pub data NoSms : Type 0 where
  gate : BlockReason → NoSms
  no_sms_number : NoSms

-- A number that the gate lets through.
unfoldable pub passes : Option DidRef → Bool
unfolding has_number outbound_block_reason
passes none = false
passes (some d) =
    has_number (some d) && not (is_some (outbound_block_reason d.sms_enabled d.sms_campaign_id))

unfoldable pub refusal : Option DidRef → NoSms
unfolding has_number outbound_block_reason
refusal none = no_sms_number
refusal (some d) =
    if has_number (some d)
    then elim (outbound_block_reason d.sms_enabled d.sms_campaign_id) [
      | none ↦ no_sms_number
      | some b ↦ gate b
    ]
    else no_sms_number

unfoldable pub resolve_sms_from :
    Option DidRef → Option DidRef → Option DidRef × Bool × Option NoSms
unfolding passes refusal
resolve_sms_from sticky default =
    if passes sticky
    then (sticky, false, none)
    else if passes default
    then (default, true, none)
    else (none, false, some (refusal sticky))

-- `d and d.number_id and d.phone_number`
unfoldable pub callable : Option DidRef → Bool
unfolding has_number
callable none = false
callable (some d) =
    has_number (some d) && elim d.phone_number [ none ↦ false | some n ↦ not (str_eq n "") ]

unfoldable pub resolve_call_from : Option DidRef → Option DidRef → Option DidRef
unfolding callable
resolve_call_from sticky default =
    if callable sticky then sticky else if callable default then default else none
