-- ===== src/Flows/Dtmf.antt =====
-- backend/app/flows/dtmf.py: the queues by which the reader of the event stream hands digits and
-- channel events to a call in progress. A queue that watches channels is known by a number; what it
-- holds is `inbox`. Logging is left out.
pub mod Listeners
pub mod Watching
pub mod Bounded
mod Examples
use owen_main.Common.{
  ℕ, suc, String, List, [], ◌∷◌, ◌++◌, Bool, true, false, Option, none, some, ltb, ◌==◌, length,
  contains, str_eq, if◌then◌else◌,
}
use owen_main.Common.Json.{Dict}
use owen_main.Common.Assoc.{lookup, insert, delete}

abbrev pub digit_queue_max : ℕ
digit_queue_max = 64

abbrev pub event_queue_max : ℕ
event_queue_max = 256

-- The queues of `register_playback` and `register_recording`.
abbrev pub signal_queue_max : ℕ
signal_queue_max = 4

abbrev pub channel_event_types : List String
channel_event_types =
    "StasisStart" ∷ "StasisEnd" ∷ "ChannelStateChange" ∷ "ChannelHangupRequest" ∷ "ChannelDestroyed"
    ∷ []

-- `_digit_queues`, `_watchers`, `_playbacks` and `_recordings`, with what the queues hold.
pub record Registries : Type 0 where
  pub digit_queues : List (String × List String)
  pub watchers : List (String × List ℕ)
  pub next_queue : ℕ
  pub inbox : ℕ → List Dict
  pub playbacks : List (String × List Dict)
  pub recordings : List (String × List Dict)

unfoldable pub register_digits : String → Registries → Registries
unfolding insert
register_digits channel r = record r { digit_queues = insert channel [] r.digit_queues }

unfoldable pub unregister_digits : String → Registries → Registries
unfolding delete
unregister_digits channel r = record r { digit_queues = delete channel r.digit_queues }

unfoldable pub digit_queue : String → Registries → Option (List String)
unfolding lookup
digit_queue channel r = lookup channel r.digit_queues

-- `queue.put_nowait`: nothing where the queue is full.
unfoldable pub put_nowait : {A : Type 0} → ℕ → A → List A → Option (List A)
put_nowait limit a q = if ltb (length q) limit then some (q ++ (a ∷ [])) else none

unfoldable pub push_into :
    {A : Type 0} → ℕ → String → A → List (String × List A) → Bool × List (String × List A)
unfolding lookup insert put_nowait
push_into limit k a d = elim (lookup k d) [
  | none ↦ (false, d)
  | some q ↦ elim (put_nowait limit a q) [ none ↦ (false, d) | some q' ↦ (true, insert k q' d) ]
]

unfoldable pub push_digit : String → String → Registries → Bool × Registries
unfolding push_into
push_digit channel digit r =
    if str_eq digit ""
    then (false, r)
    else (let (pushed, queues) = push_into digit_queue_max channel digit r.digit_queues in
        (pushed, record r { digit_queues = queues }))

-- `_watchers.get(channel, ())`
unfoldable pub listeners : String → List (String × List ℕ) → List ℕ
unfolding lookup
listeners channel ws = elim (lookup channel ws) [ none ↦ [] | some qs ↦ qs ]

-- `_watchers.setdefault(cid, []).append(queue)`
unfoldable pub watch_one : ℕ → String → List (String × List ℕ) → List (String × List ℕ)
unfolding listeners insert
watch_one q channel ws = insert channel (listeners channel ws ++ (q ∷ [])) ws

unfoldable pub watch_all : ℕ → List String → List (String × List ℕ) → List (String × List ℕ)
unfolding watch_one
watch_all q [] ws = ws
watch_all q (c ∷ cs) ws =
    if str_eq c "" then watch_all q cs ws else watch_all q cs (watch_one q c ws)

-- The new queue is empty.
unfoldable pub watch : List String → Registries → ℕ × Registries
unfolding watch_all
watch channels r = (
  r.next_queue,
  record r {
    watchers = watch_all r.next_queue channels r.watchers;
    next_queue = suc r.next_queue;
    inbox = λ q. if q == r.next_queue then [] else r.inbox q;
  },
)

-- `queues.remove(queue)`: the first occurrence, if there is one.
unfoldable pub remove_first : ℕ → List ℕ → List ℕ
remove_first q [] = []
remove_first q (p ∷ ps) = let rest = remove_first q ps in if p == q then ps else p ∷ rest

-- A channel that nobody watches any longer leaves the registry.
unfoldable pub put_back : String → List ℕ → List (String × List ℕ) → List (String × List ℕ)
unfolding insert delete
put_back channel [] ws = delete channel ws
put_back channel (q ∷ qs) ws = insert channel (q ∷ qs) ws

unfoldable pub unwatch_one : ℕ → String → List (String × List ℕ) → List (String × List ℕ)
unfolding put_back remove_first listeners
unwatch_one q channel ws = elim (listeners channel ws) [
  | [] ↦ ws
  | p ∷ ps ↦ put_back channel (remove_first q (p ∷ ps)) ws
]

unfoldable pub unwatch_all : ℕ → List String → List (String × List ℕ) → List (String × List ℕ)
unfolding unwatch_one
unwatch_all q [] ws = ws
unwatch_all q (c ∷ cs) ws = unwatch_all q cs (unwatch_one q c ws)

unfoldable pub unwatch : ℕ → List String → Registries → Registries
unfolding unwatch_all
unwatch q channels r = record r { watchers = unwatch_all q channels r.watchers }

-- The event goes into each queue that has room; the number of those comes back.
unfoldable pub deliver : Dict → List ℕ → (ℕ → List Dict) → ℕ × (ℕ → List Dict)
unfolding put_nowait
deliver event [] inbox = (0, inbox)
deliver event (q ∷ qs) inbox = elim (put_nowait event_queue_max event (inbox q)) [
  | none ↦ deliver event qs inbox
  | some queue ↦
      (let (delivered, inbox') = deliver event qs (λ p. if p == q then queue else inbox p) in
        (suc delivered, inbox'))
]

unfoldable pub push_channel_event : String → Dict → Registries → ℕ × Registries
unfolding deliver listeners
push_channel_event channel event r =
    let (delivered, inbox) = deliver event (listeners channel r.watchers) r.inbox in
    (delivered, record r { inbox = inbox })

unfoldable pub registry_sizes : Registries → ℕ × ℕ
registry_sizes r = (length r.digit_queues, length r.watchers)

unfoldable pub register_playback : String → Registries → Registries
unfolding insert
register_playback playback r = record r { playbacks = insert playback [] r.playbacks }

unfoldable pub push_playback : String → Dict → Registries → Bool × Registries
unfolding push_into
push_playback playback event r =
    let (pushed, queues) = push_into signal_queue_max playback event r.playbacks in
    (pushed, record r { playbacks = queues })

unfoldable pub unregister_playback : String → Registries → Registries
unfolding delete
unregister_playback playback r = record r { playbacks = delete playback r.playbacks }

unfoldable pub register_recording : String → Registries → Registries
unfolding insert
register_recording name r = record r { recordings = insert name [] r.recordings }

unfoldable pub push_recording : String → Dict → Registries → Bool × Registries
unfolding push_into
push_recording name event r =
    let (pushed, queues) = push_into signal_queue_max name event r.recordings in
    (pushed, record r { recordings = queues })

unfoldable pub unregister_recording : String → Registries → Registries
unfolding delete
unregister_recording name r = record r { recordings = delete name r.recordings }
