-- ===== src/Services/Ingestion/Examples.antt =====
-- A call that completes before its ringing is delivered, and a second delivery.
use owen_main.Common.{
  ℕ, ◌+◌, ◌≤◌, String, List, [], ◌∷◌, ◌≡◌, refl, Option, none, some, Result, ok, raise,
}
use owen_main.Common.Assoc.{lookup}
use owen_main.Services.Ingestion.{Setting, NormalizedCallEvent, Number, Tables, rank_of}
use owen_main.Services.Ingestion.Write.{find_call}
use owen_main.Services.Ingestion.Whole.{ingest_status_event, count_events}
use owen_main.Services.Ingestion.Ranks.{rank_at, ingest_all, ingest_all_rank}
use owen_main.Services.Ingestion.Counting.{total_of}
use owen_main.Services.Ingestion.Once.{calls_in, ingest_all_counts_once}
use owen_main.Services.Ingestion.Attribution.{Attributed, ingest_keeps_attribution}

abbrev plain : Setting
plain = record { lower = λ t. t; bulkvs_media = "asterisk" }

abbrev event_with : String → String → Option ℕ → NormalizedCallEvent
event_with sid status answered = record {
  call_sid = sid;
  event_type = "status";
  event_status = some status;
  from_number = some "+15550100";
  to_number = some "+15550199";
  way = some "inbound";
  begun = none;
  answered = answered;
  ended = none;
  seconds = none;
  forwarded = none;
  sequence = some status;
}

abbrev our_number : Number
our_number = record {
  number_key = 7;
  number_provider = 1;
  campaign = some 3;
  phone = "+15550199";
  owner_provider = none;
  media_provider = none;
}

abbrev fresh : Tables
fresh = record {
  providers = ("twilio", 1) ∷ [];
  next_provider = 2;
  numbers = our_number ∷ [];
  callers = [];
  calls = [];
  events = [];
}

abbrev or_fresh : Result Tables → Tables
or_fresh (ok t) = t
or_fresh (raise e) = fresh

abbrev late_ringing : List (ℕ × NormalizedCallEvent)
late_ringing =
    (10, event_with "CA1" "completed" (some 5))
    ∷ (11, event_with "CA1" "ringing" none)
    ∷ (12, event_with "CA2" "initiated" none)
    ∷ []

abbrev after_late : Tables
after_late = or_fresh (ingest_all plain "twilio" late_ringing fresh)

ingest_all_rank_example : rank_at 1 "CA1" after_late ≡ 4
unfolding lookup ingest_status_event rank_of
ingest_all_rank_example =
    ingest_all_rank plain "twilio" 1 "CA1" late_ringing fresh after_late refl refl

abbrev after_again : Tables
after_again =
    or_fresh (ingest_status_event plain 13 "twilio" (event_with "CA1" "ringing" none) after_late)

-- The caller has two calls, of which the log knows.
ingest_all_counts_once_example :
    total_of "+15550100" after_late.callers + 0 ≤ 0 + calls_in after_late.events
unfolding lookup ingest_status_event count_events
ingest_all_counts_once_example =
    ingest_all_counts_once plain "twilio" 1 late_ringing fresh after_late "+15550100" refl refl

ingest_keeps_attribution_example : Attributed (find_call 1 "CA1" after_again.calls)
unfolding lookup ingest_status_event find_call
ingest_keeps_attribution_example =
    ingest_keeps_attribution plain 13 "twilio" (event_with "CA1" "ringing" none) 1 "CA1" after_late
      after_again refl refl refl
