-- ===== src/Providers/Ari/Examples.antt =====
-- A client with one leg of another call, dials that are answered or refused, and an owned channel.
use owen_main.Common.{List, [], ◌∷◌, ◌≡◌, refl, Bool, true, false, contains, none, some}
use owen_main.Common.Json.{Value, null, dict, field, end, str, as_dict, truthy, get, is_text}
use owen_main.Common.Print.{str_of}
use owen_main.Common.Assoc.{lookup}
use owen_main.Telephony.Ownership.{claim}
use owen_main.Telephony.Ownership.Tracked.{no_calls}
use owen_main.Flows.Dtmf.{listeners}
use owen_main.Providers.Ari.Client.{
  Platform, Client, Arrival, event, Originate, originate, Request, record_mixing, Lands,
}
use owen_main.Providers.Ari.Dial.{dial_number}
use owen_main.Providers.Ari.Ring.{ring_and_bridge}
use owen_main.Providers.Ari.Outbound.{OutboundCall, run_outbound_call}
use owen_main.Providers.Ari.Resources.{channel_leg, live}
use owen_main.Providers.Ari.Teardown.{dial_number_leaves_nothing, dial_number_unwatches}
use owen_main.Providers.Ari.Rings.{ring_and_bridge_leaves_nothing}
use owen_main.Providers.Ari.Outbounds.{run_outbound_call_leaves_nothing}
use owen_main.Providers.Ari.Guard.{Untouched, claim_stops_client}
use owen_main.Providers.Ari.Answered.{DialEnds, dial_number_ends}

abbrev platform : Value → Platform
platform reply = record {
  accepts = λ h r. true;
  reply = λ h r. reply;
  cuts = λ h r. false;
  hex = λ n. "7";
  prompt_path = λ m. none;
  as_int = λ v. some v;
  lower = λ t. t;
  upper = λ t. t;
  trunk = "bulkvs";
}

abbrev obliging : Platform
obliging = platform (dict (field "id" (str "b1") end))

abbrev is_recording : Request → Bool
is_recording (record_mixing b n) = true
is_recording _ = false

-- The task is cancelled when it asks for the recording of a bridge.
abbrev cut_short : Platform
cut_short = record obliging { cuts = λ before r. is_recording r }

cut_short-Lands : Lands cut_short
cut_short-Lands before (record_mixing b n) m = cc m
cut_short-Lands before r m = refl

abbrev refusing : Platform
refusing = platform null

abbrev other_leg : Originate
other_leg = record {
  endpoint = "PJSIP/operator-1";
  app_args = none;
  leg = some "other";
  originator = none;
  caller_id = none;
  ring_timeout = none;
  variables = [];
}

-- The dialed leg comes up, and later leaves.
abbrev talk_events : List Arrival
talk_events =
    event 900
      (("type", str "StasisStart") ∷ ("channel", dict (field "id" (str "flow-dial-7") end)) ∷ [])
    ∷ event 5000 (
        ("type", str "ChannelDestroyed")
        ∷ ("channel", dict (field "id" (str "flow-dial-7") end))
        ∷ [])
    ∷ []

abbrev busy_client : Client
busy_client = record {
  owners = no_calls;
  queues = record {
    digit_queues = [];
    watchers = [];
    next_queue = 0;
    inbox = λ q. [];
    playbacks = [];
    recordings = [];
  };
  last_dial = [];
  bridge_id = none;
  next_id = 0;
  requests = originate other_leg ∷ [];
  arrivals = talk_events;
}

dial_number_leaves_nothing_example :
    live cut_short (channel_leg "other") busy_client.requests ≡ true
unfolding live dial_number as_dict truthy get str_of is_text
dial_number_leaves_nothing_example =
    dial_number_leaves_nothing cut_short "ch" "+15550100" none 25 (some "rec") true busy_client
      (channel_leg "other") cut_short-Lands refl

dial_number_unwatches_example :
    lookup "ch"
      (dial_number obliging "ch" "+15550100" none 25 none false busy_client).1.queues.watchers
    ≡ lookup "ch" busy_client.queues.watchers
unfolding lookup listeners
dial_number_unwatches_example =
    dial_number_unwatches obliging "ch" "+15550100" none 25 none false busy_client "ch"
      (λ c h. cc h) tt

ring_and_bridge_leaves_nothing_example :
    live cut_short (channel_leg "other") busy_client.requests ≡ true
unfolding live ring_and_bridge as_dict truthy get str_of is_text
ring_and_bridge_leaves_nothing_example =
    ring_and_bridge_leaves_nothing cut_short "ch" ("PJSIP/operator-2" ∷ "" ∷ []) none 25
      (some "rec") busy_client (channel_leg "other") cut_short-Lands refl

abbrev placed_call : OutboundCall
placed_call = record {
  operator_endpoint = "PJSIP/operator-1";
  callee_number = "+15550100";
  from_number = "+15550199";
  trunk_name = "bulkvs";
  operator_channel = "op";
  callee_channel = "callee";
  consent_media = none;
  recorded = true;
  answer_timeout = 30;
}

run_outbound_call_leaves_nothing_example :
    live cut_short (channel_leg "other") busy_client.requests ≡ true
unfolding live run_outbound_call as_dict truthy get str_of is_text
run_outbound_call_leaves_nothing_example =
    run_outbound_call_leaves_nothing cut_short placed_call busy_client (channel_leg "other")
      cut_short-Lands refl

claim_stops_client_example :
    Untouched obliging "ch"
      (record busy_client { owners = (claim "c1" "ana" ("ch" ∷ []) "takeover" no_calls).1 })
unfolding claim contains
claim_stops_client_example =
    claim_stops_client obliging "c1" "ana" ("ch" ∷ []) "takeover" "ch" busy_client refl refl refl

-- A call that a human has seized.
abbrev seized_client : Client
seized_client = record busy_client {
  owners = record {
    calls = ("c1", record { owner = "ana"; channels = "ch" ∷ []; reason = "takeover" }) ∷ [];
    channel_calls = ("ch", "c1") ∷ [];
  };
}

dial_number_ends_example :
    let (a, t) = dial_number obliging "ch" "+15550100" none 25 none true busy_client in
    DialEnds obliging "ch" "flow-dial-7" a t
dial_number_ends_example = dial_number_ends obliging "ch" "+15550100" none 25 none true busy_client
