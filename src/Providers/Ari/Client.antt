-- ===== src/Providers/Ari/Client.antt =====
-- The state of an `AsteriskAriClient` (backend/app/providers/asterisk_client.py) and what it acts on:
-- the requests to ARI, the registries of its events, and the waits for them. A wait takes the next
-- arrivals of the schedule. A request may be refused, and the task may be cancelled while it awaits one.
use owen_main.Common.{ℕ, suc, String, List, ◌∷◌, ◌≡◌, Bool, true, false, Option}
use owen_main.Common.Json.{Value, Dict}
use owen_main.Common.Store.{update}
use owen_main.Telephony.Ownership.{Registry}
use owen_main.Flows.Dtmf.{Registries}

-- The parameters of `POST /channels`.
pub record Originate : Type 0 where
  pub endpoint : String
  pub app_args : Option String
  pub leg : Option String
  pub originator : Option String
  pub caller_id : Option String
  pub ring_timeout : Option ℕ
  pub variables : Dict

pub data Request : Type 0 where
  answer_channel delete_channel hold_channel unhold_channel ring_channel unring_channel :
      String → Request
  start_music stop_music snoop_channel : String → Request
  play_media : String → String → Request
  play_tracked : String → String → String → Request
  delete_playback : String → Request
  record_channel : String → String → Request
  record_message : String → String → ℕ → ℕ → Request
  originate : Originate → Request
  create_mixing : Request
  add_channels : String → List String → Request
  record_mixing : String → String → Request
  delete_bridge : String → Request
  redirect : String → String → Request
  list_endpoints : Request

-- `except Exception` catches a failure; the cancellation of the task goes through it.
pub data Trouble : Type 0 where
  failure cancelled : Trouble

pub data Answer (A : Type 0) : Type 0 where
  returned : A → Answer A
  stopped : Trouble → Answer A

-- What a wait gets: an event of a watched channel or a signal, after so many milliseconds; a digit;
-- nothing within its time; or an exception in the waiting task.
pub data Arrival : Type 0 where
  event : ℕ → Dict → Arrival
  digit : String → Arrival
  silence : ℕ → Arrival
  trouble : Trouble → Arrival

-- ARI and the parts of Python and of the settings that the client uses: whether a request is accepted,
-- what it is answered with and whether the task is cancelled at it, by the requests made before; new hexadecimal ids by number; the path
-- of a spoken prompt; `int`; `str.lower`, `str.upper`; the name of the trunk.
pub record Platform : Type 0 where
  pub accepts : List Request → Request → Bool
  pub reply : List Request → Request → Value
  pub cuts : List Request → Request → Bool
  pub hex : ℕ → String
  pub prompt_path : String → Option String
  pub as_int : Value → Option Value
  pub lower : String → String
  pub upper : String → String
  pub trunk : String

-- `bridge_id` is the local variable of that name of the call that runs, which its `finally` reads.
-- The requests stand with the latest first.
pub record Client : Type 0 where
  pub owners : Registry
  pub queues : Registries
  pub last_dial : Dict
  pub bridge_id : Option String
  pub next_id : ℕ
  pub requests : List Request
  pub arrivals : List Arrival

abbrev pub Act : Type 0 → Type 0
Act A = Client → Answer A × Client

abbrev pub continue : {A B : Type 0} → Answer A → (A → Act B) → Act B
continue (returned a) f s = f a s
continue (stopped t) f s = (stopped t, s)

infixl 5 ◌>>=◌ ◌>>◌
abbrev pub ◌>>=◌ : {A B : Type 0} → Act A → (A → Act B) → Act B
◌>>=◌ m f s = let (a, s') = m s in continue a f s'

abbrev pub ◌>>◌ : {A B : Type 0} → Act A → Act B → Act B
m >> n = m >>= λ _. n

abbrev pub pure : {A : Type 0} → A → Act A
pure a s = (returned a, s)

abbrev pub rescued : {A : Type 0} → Answer A → Act A → Act A
rescued (returned a) h s = (returned a, s)
rescued (stopped failure) h s = h s
rescued (stopped cancelled) h s = (stopped cancelled, s)

-- `try: m except Exception: h`
abbrev pub rescue : {A : Type 0} → Act A → Act A → Act A
rescue m h s = let (a, s') = m s in rescued a h s'

abbrev pub kept : {A : Type 0} → Answer A → Answer (Unit {0}) → Answer A
kept a (returned _) = a
kept a (stopped t) = stopped t

-- `try: m finally: cleanup`
abbrev pub ensuring : {A : Type 0} → Act A → Act (Unit {0}) → Act A
ensuring m cleanup s = let (a, s') = m s in let (b, s'') = cleanup s' in (kept a b, s'')

abbrev pub gets : {A : Type 0} → (Client → A) → Act A
gets f s = (returned (f s), s)

abbrev pub modify : (Client → Client) → Act (Unit {0})
modify f s = (returned tt, f s)

-- An operation of the event registries.
abbrev pub registering : {A : Type 0} → (Registries → A × Registries) → Act A
registering f s = let (a, q) = f s.queues in (returned a, record s { queues = q })

abbrev pub on_queues : (Registries → Registries) → Act (Unit {0})
on_queues f = modify (λ s. record s { queues = f s.queues })

-- A loop that waits, on the arrivals that are left.
abbrev pub waiting : {A : Type 0} → (List Arrival → Answer A × List Arrival) → Act A
waiting f s = let (a, rest) = f s.arrivals in (a, record s { arrivals = rest })

-- `self._last_dial.update(info)`
abbrev pub note_dial : Dict → Act (Unit {0})
note_dial info = modify (λ s. record s { last_dial = update s.last_dial info })

-- The answer to a request, if the task is not cancelled at it: `except Exception` does not catch that.
abbrev pub landed : {A : Type 0} → Bool → A → Answer A
landed true a = stopped cancelled
landed false a = returned a

-- A request at which the task is cancelled counts as made: ARI may have got it.
abbrev pub sent : Request → Client → Client
sent r s = record s { requests = r ∷ s.requests }

abbrev pub lasting : Request → Bool
lasting create_mixing = true
lasting (delete_bridge b) = true
lasting (delete_channel c) = true
lasting _ = false

module _ (p : Platform) where
  -- `_post` and `_delete`
  abbrev pub send : Request → Act Bool
  send r s = (landed (p.cuts s.requests r) (p.accepts s.requests r), sent r s)

  -- `_post_json`; a refused request is answered with `null`.
  abbrev pub ask : Request → Act Value
  ask r s = (landed (p.cuts s.requests r) (p.reply s.requests r), sent r s)

  abbrev pub tell : Request → Act (Unit {0})
  tell r s = (landed (p.cuts s.requests r) tt, sent r s)

  -- The task is not cancelled at a request that makes a bridge or that deletes something.
  abbrev pub Lands : Type 0
  Lands = (before : List Request) (r : Request) → lasting r ≡ true → p.cuts before r ≡ false

  -- `uuid.uuid4().hex`
  abbrev pub new_hex : Act String
  new_hex s = (returned (p.hex s.next_id), record s { next_id = suc s.next_id })
