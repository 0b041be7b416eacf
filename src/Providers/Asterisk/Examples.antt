-- ===== src/Providers/Asterisk/Examples.antt =====
-- A caller enters the application.
use owen_main.Common.{
  ◌≤◌, String, [], ◌∷◌, ◌≡◌, refl, false, none, some, length, contains, arith, ok,
}
use owen_main.Common.Json.{dict, field, end, str, Dict, get, as_dict, truthy, is_text, hashable}
use owen_main.Common.Print.{str_of}
use owen_main.Common.Assoc.{lookup}
use owen_main.Services.Ingestion.{NormalizedCallEvent}
use owen_main.Providers.Asterisk.{Reader}
use owen_main.Providers.Asterisk.Router.{dedup_max, route}
use owen_main.Providers.Asterisk.Passing.{route_once_per_status}

abbrev plain : Reader
plain = record {
  lower = λ t. t;
  is_digit = λ c. false;
  as_int = λ v. none;
  parse_ts = λ e. some 60;
}

abbrev entering : Dict
entering = ("type", str "StasisStart") ∷ ("channel", dict (field "id" (str "1.2") end)) ∷ []

abbrev entered : NormalizedCallEvent
entered = record {
  call_sid = "1.2";
  event_type = "StasisStart";
  event_status = some "initiated";
  from_number = none;
  to_number = none;
  way = some "inbound";
  begun = some 60;
  answered = none;
  ended = none;
  seconds = none;
  forwarded = none;
  sequence = some "1.2:initiated";
}

-- The same status again, in another event, after one of another call.
abbrev once_more : Dict
once_more = ("timestamp", str "later") ∷ entering

route_once_per_status_example :
    (route plain once_more ("9.9:ringing" ∷ "1.2:initiated" ∷ [])
      ≡ ok (none, "9.9:ringing" ∷ "1.2:initiated" ∷ []))
    × (length {A = String} ("1.2:initiated" ∷ []) ≤ dedup_max)
unfolding route get as_dict truthy is_text hashable str_of lookup contains
route_once_per_status_example =
    route_once_per_status plain entering once_more entered entered [] ("1.2:initiated" ∷ [])
      ("9.9:ringing" ∷ "1.2:initiated" ∷ []) refl (λ k i. ground (arith, i)) refl refl refl
