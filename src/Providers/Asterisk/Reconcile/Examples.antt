-- ===== src/Providers/Asterisk/Reconcile/Examples.antt =====
-- A call that failed: its end came in live, and its row is scanned twice.
use owen_main.Common.{◌++◌, String, List, [], ◌∷◌, ◌≡◌, refl, true, false, none, some}
use owen_main.Common.Json.{str, Dict, get, as_dict, truthy, is_text, hashable}
use owen_main.Common.Print.{str_of}
use owen_main.Common.Assoc.{lookup}
use owen_main.Common.Chars.{strip, strip_chars, lstrip, is_space}
use owen_main.Services.Ingestion.{NormalizedCallEvent, CallEvent}
use owen_main.Services.Ingestion.Whole.{any_conflict}
use owen_main.Services.Ingestion.Logged.{log_row}
use owen_main.Services.Ingestion.Counting.{total_of}
use owen_main.Providers.Asterisk.Records.{cdr_row_to_event}
use owen_main.Providers.Asterisk.Reconcile.{Scan, Written, row_event, reconcile_cdr}
use owen_main.Providers.Asterisk.Reconcile.Replayed.{reconcile_again}
use owen_main.Providers.Asterisk.Reconcile.Beside.{reconcile_beside_live}

abbrev nightly : Scan
nightly = record {
  reader = record {
    lower = λ t. t;
    is_digit = λ c. false;
    as_int = λ v. some v;
    parse_ts = λ e. some 60;
  };
  upper = λ t. t;
  date_of = λ v. none;
  ingestion = record { lower = λ t. t; bulkvs_media = "asterisk" };
  webhook_url = "https://hook.example";
  relayed_to_ghl = λ c. false;
}

abbrev row : Dict
row = ("linkedid", str "1.2") ∷ ("disposition", str "FAILED") ∷ ("src", str "+15550100") ∷ []

abbrev failed_call : NormalizedCallEvent
failed_call = record {
  call_sid = "1.2";
  event_type = "cdr";
  event_status = some "failed";
  from_number = some "+15550100";
  to_number = none;
  way = some "inbound";
  begun = none;
  answered = none;
  ended = none;
  seconds = none;
  forwarded = none;
  sequence = some "1.2:failed";
}

-- The log has the end of the call as it came in live, with the same key.
abbrev hung_up : CallEvent
hung_up = record {
  of_provider = 1;
  of_sid = "1.2";
  kind = "ChannelDestroyed";
  provider_sequence = some "1.2:failed";
}

abbrev before : Written
before = record {
  tables = record {
    providers = ("asterisk", 1) ∷ [];
    next_provider = 2;
    numbers = [];
    callers = [];
    calls = [];
    events = hung_up ∷ [];
  };
  relays = [];
}

abbrev scanned : Written
scanned = (reconcile_cdr nightly (λ k. 100) (some (row ∷ [])) before).1

abbrev scanned_again : Written
scanned_again = (reconcile_cdr nightly (λ k. 400) (some (row ∷ [])) scanned).1

reconcile_again_example :
    (scanned_again.tables.events ≡ scanned.tables.events)
    × ((phone : String)
        → total_of phone scanned_again.tables.callers ≡ total_of phone scanned.tables.callers)
unfolding reconcile_cdr cdr_row_to_event lookup get as_dict truthy is_text hashable str_of strip
    strip_chars lstrip is_space
reconcile_again_example =
    reconcile_again nightly (λ k. 100) (λ k. 400) (row ∷ []) before scanned 1 1 refl refl

reconcile_beside_live_example :
    (added : List CallEvent) × (scanned.tables.events ≡ before.tables.events ++ added)
    × (any_conflict (log_row 1 failed_call) added ≡ true)
unfolding reconcile_cdr row_event cdr_row_to_event lookup get as_dict truthy is_text hashable str_of
    strip strip_chars lstrip is_space
reconcile_beside_live_example =
    reconcile_beside_live nightly (λ k. 100) [] [] row failed_call before scanned 1 1 refl
      ((λ h. refl), tt) refl refl
