-- ===== src/Services/Ingestion.antt =====
-- `ingest_status_event` of backend/app/services/ingestion.py, with the rule for the number of a DID
-- (services/number_match.py) and the rank of a status (providers/base.py): one event of a call is
-- written into the tables. A caller is known by the phone number and a call by its provider and sid,
-- which are unique; times are numbers of seconds, the raw payload is left out. The run is one
-- transaction: where it raises, nothing is written.
pub mod Write
pub mod Whole
pub mod Forwarding
pub mod Settled
pub mod Ranks
pub mod Counting
pub mod Logged
pub mod Once
pub mod Attribution
mod Examples
use owen_main.Common.{
  ℕ, suc, ◌+◌, String, List, [], ◌∷◌, ◌++◌, Bool, true, false, not, ◌&&◌, ◌||◌, Option, none, some,
  leb, ltb, ◌==◌, str_eq, Result, ok, raise, external, if◌then◌else◌,
}
use owen_main.Common.Assoc.{lookup}
use owen_main.Common.Json.{ℤ}

-- The parts of Python and of the settings: `str.lower`, `BULKVS_MEDIA_PROVIDER`.
pub record Setting : Type 0 where
  pub lower : String → String
  pub bulkvs_media : String

pub record NormalizedCallEvent : Type 0 where
  pub call_sid : String
  pub event_type : String
  pub event_status : Option String
  pub from_number : Option String
  pub to_number : Option String
  pub way : Option String
  pub begun : Option ℕ
  pub answered : Option ℕ
  pub ended : Option ℕ
  pub seconds : Option ℤ
  pub forwarded : Option String
  pub sequence : Option String

pub record Number : Type 0 where
  pub number_key : ℕ
  pub number_provider : ℕ
  pub campaign : Option ℕ
  pub phone : String
  pub owner_provider : Option String
  pub media_provider : Option String

pub record Caller : Type 0 where
  pub caller_phone : String
  pub first_seen : ℕ
  pub last_seen : ℕ
  pub total_calls : ℕ

pub record Call : Type 0 where
  pub provider_id : ℕ
  pub sid : String
  pub number_id : Option ℕ
  pub caller_id : Option String
  pub campaign_id : Option ℕ
  pub direction : Option String
  pub status : Option String
  pub status_rank : ℕ
  pub started_at : ℕ
  pub answered_at : Option ℕ
  pub ended_at : Option ℕ
  pub duration_seconds : Option ℤ
  pub forwarded_to : Option String
  pub is_new_for_campaign : Option Bool

-- A row of `call_events`.
pub record CallEvent : Type 0 where
  pub of_provider : ℕ
  pub of_sid : String
  pub kind : String
  pub provider_sequence : Option String

pub record Tables : Type 0 where
  pub providers : List (String × ℕ)
  pub next_provider : ℕ
  pub numbers : List Number
  pub callers : List Caller
  pub calls : List Call
  pub events : List CallEvent

abbrev pub rank_table : List (String × ℕ)
rank_table =
    ("initiated", 1)
    ∷ ("ringing", 2)
    ∷ ("in-progress", 3)
    ∷ ("answered", 3)
    ∷ ("completed", 4)
    ∷ ("busy", 4)
    ∷ ("no-answer", 4)
    ∷ ("failed", 4)
    ∷ ("canceled", 4)
    ∷ []

-- `x or ""`
unfoldable pub or_empty : Option String → String
or_empty none = ""
or_empty (some t) = t

-- `x or y`, where `None` is the only false value.
unfoldable pub or_else : {A : Type 0} → Option A → Option A → Option A
or_else none y = y
or_else (some a) y = some a

-- `if x:`
unfoldable pub worded : Option String → Option String
worded none = none
worded (some t) = if str_eq t "" then none else some t

-- A text that is false keeps what is there: `evt.direction or Call.direction`.
unfoldable pub or_text : Option String → Option String → Option String
unfolding worded or_else
or_text x y = or_else (worded x) y

-- `col = name`, which is not true of a null.
unfoldable pub equals_text : String → Option String → Bool
equals_text name none = false
equals_text name (some t) = str_eq t name

unfoldable pub rank_of : Setting → Option String → ℕ
unfolding lookup or_empty
rank_of set status = elim (lookup (set.lower (or_empty status)) rank_table) [
  | none ↦ 0
  | some r ↦ r
]

unfoldable pub is_outbound : Setting → NormalizedCallEvent → Bool
unfolding or_empty
is_outbound set evt = str_eq (set.lower (or_empty evt.way)) "outbound"

-- `owned_number_clause`
unfoldable pub owned_number_clause : ℕ → String → Number → Bool
unfolding equals_text
owned_number_clause provider name n =
    (n.number_provider == provider)
    || (equals_text name n.owner_provider || equals_text name n.media_provider)

unfoldable pub select_numbers : (Number → Bool) → List Number → List Number
select_numbers f [] = []
select_numbers f (n ∷ ns) = let rest = select_numbers f ns in if f n then n ∷ rest else rest

unfoldable pub scalar_one_or_none : List Number → Result (Option Number)
scalar_one_or_none [] = ok none
scalar_one_or_none (n ∷ []) = ok (some n)
scalar_one_or_none (n ∷ m ∷ ns) = raise external

-- The number of the DID, if the event has one.
unfoldable pub find_number :
    Setting → ℕ → String → Bool → Option String → List Number → Result (Option Number)
unfolding scalar_one_or_none select_numbers owned_number_clause equals_text
find_number set provider name outbound none numbers = ok none
find_number set provider name outbound (some did) numbers = scalar_one_or_none (
    select_numbers
      (λ n.
        str_eq n.phone did
        && (if outbound
            then equals_text set.bulkvs_media n.media_provider
            else owned_number_clause provider name n))
      numbers)

-- `_get_or_create_provider`
unfoldable pub get_or_create_provider : String → Tables → ℕ × Tables
unfolding lookup
get_or_create_provider name t = elim (lookup name t.providers) [
  | none ↦ (
    t.next_provider,
    record t {
      providers = t.providers ++ ((name, t.next_provider) ∷ []);
      next_provider = suc t.next_provider;
    },
  )
  | some id ↦ (id, t)
]

-- `_get_or_create_caller`: what is upserted is the time.
unfoldable pub upsert_caller : String → ℕ → List Caller → List Caller
upsert_caller phone seen [] =
    record { caller_phone = phone; first_seen = seen; last_seen = seen; total_calls = 0 } ∷ []
upsert_caller phone seen (c ∷ cs) =
    let rest = upsert_caller phone seen cs in
    if str_eq c.caller_phone phone then record c { last_seen = seen } ∷ cs else c ∷ rest

unfoldable pub get_or_create_caller : Option String → ℕ → List Caller → List Caller
unfolding upsert_caller
get_or_create_caller none seen cs = cs
get_or_create_caller (some phone) seen cs = upsert_caller phone seen cs
