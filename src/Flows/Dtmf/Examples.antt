-- ===== src/Flows/Dtmf/Examples.antt =====
-- A dial that watches both legs, and a caller who presses two digits.
use owen_main.Common.{◌≤◌, String, [], ◌∷◌, ◌≢◌, some, length, arith}
use owen_main.Common.Assoc.{lookup}
use owen_main.Flows.Dtmf.{Registries, listeners, watch, push_channel_event}
use owen_main.Flows.Dtmf.Bounded.{Fits, push_channel_event_bounded}

-- One flow runs on the channel.
abbrev one_call : Registries
one_call = record {
  digit_queues = ("ch", []) ∷ [];
  watchers = [];
  next_queue = 0;
  inbox = λ q. [];
  playbacks = [];
  recordings = [];
}

nobody : (c : String) → lookup c one_call.watchers ≢ some []
unfolding lookup
nobody c h = cc h

push_channel_event_bounded_example :
    let (delivered, r) = push_channel_event "ch" [] (watch ("ch" ∷ []) one_call).1 in
    (delivered ≤ length (listeners "ch" (watch ("ch" ∷ []) one_call).1.watchers)) × Fits r.inbox
unfolding watch
push_channel_event_bounded_example =
    push_channel_event_bounded "ch" [] (watch ("ch" ∷ []) one_call).1 (λ q. ground arith)
