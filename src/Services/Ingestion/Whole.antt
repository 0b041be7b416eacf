-- ===== src/Services/Ingestion/Whole.antt =====
-- The event rows, the counting of calls, and the whole of `ingest_status_event`
-- (backend/app/services/ingestion.py).
use owen_main.Common.{
  ℕ, suc, String, List, [], ◌∷◌, ◌++◌, Bool, true, false, ◌&&◌, Option, none, some, leb, ◌==◌,
  str_eq, Result, ok, raise, if◌then◌else◌,
}
use owen_main.Services.Ingestion.{
  Setting, NormalizedCallEvent, Number, Caller, CallEvent, Tables, worded, rank_of, is_outbound,
  find_number, get_or_create_provider, get_or_create_caller,
}
use owen_main.Services.Ingestion.Write.{Finding, campaign_of, first_of_campaign, write_call}

unfoldable pub same_event_call : ℕ → String → CallEvent → Bool
same_event_call provider sid v = v.of_provider == provider && str_eq v.of_sid sid

unfoldable pub equal_sequence : Option String → Option String → Bool
equal_sequence (some a) (some b) = str_eq a b
equal_sequence _ _ = false

-- The unique constraint, under which nulls are distinct.
unfoldable pub conflicts : CallEvent → CallEvent → Bool
unfolding same_event_call equal_sequence
conflicts new old =
    same_event_call new.of_provider new.of_sid old
    && (str_eq old.kind new.kind && equal_sequence old.provider_sequence new.provider_sequence)

unfoldable pub any_conflict : CallEvent → List CallEvent → Bool
unfolding conflicts
any_conflict new [] = false
any_conflict new (v ∷ vs) = let rest = any_conflict new vs in if conflicts new v then true else rest

unfoldable pub event_row : NormalizedCallEvent → Finding → CallEvent
event_row e f = record {
  of_provider = f.provider;
  of_sid = e.call_sid;
  kind = e.event_type;
  provider_sequence = e.sequence;
}

-- How many events of the call there are.
unfoldable pub count_events : ℕ → String → List CallEvent → ℕ
unfolding same_event_call
count_events provider sid [] = 0
count_events provider sid (v ∷ vs) =
    let rest = count_events provider sid vs in
    if same_event_call provider sid v then suc rest else rest

unfoldable pub count_call : String → ℕ → List Caller → List Caller
count_call phone seen [] = []
count_call phone seen (c ∷ cs) =
    let rest = count_call phone seen cs in
    if str_eq c.caller_phone phone
    then record c { total_calls = suc c.total_calls; last_seen = seen } ∷ rest
    else c ∷ rest

-- The first event of a call, of rank 1 at least, counts it for its caller.
unfoldable pub count_once :
    NormalizedCallEvent → Finding → ℕ → List CallEvent → List Caller → List Caller
unfolding count_events count_call
count_once e f seen events callers = elim f.caller [
  | none ↦ callers
  | some phone ↦
      if leb 1 f.rank && (count_events f.provider e.call_sid events == 1)
      then count_call phone seen callers
      else callers
]

unfoldable pub write_event : NormalizedCallEvent → Finding → ℕ → Tables → Tables
unfolding any_conflict event_row count_once
write_event e f seen t =
    if any_conflict (event_row e f) t.events
    then t
    else (let events = t.events ++ (event_row e f ∷ []) in
        record t { events = events; callers = count_once e f seen events t.callers })

unfoldable pub seen_at : ℕ → NormalizedCallEvent → ℕ
seen_at now e = elim e.begun [ none ↦ now | some t ↦ t ]

unfoldable pub finding_of : Setting → ℕ → NormalizedCallEvent → ℕ → Option Number → Tables → Finding
unfolding is_outbound worded rank_of first_of_campaign
finding_of set now e provider number t =
    let caller = worded (if is_outbound set e then e.to_number else e.from_number) in
    record {
      provider = provider;
      number = number;
      caller = caller;
      rank = rank_of set e.event_status;
      is_new = first_of_campaign caller (campaign_of number) t.calls;
      now = now;
    }

unfoldable pub ingest_found :
    Setting → ℕ → NormalizedCallEvent → ℕ → Option Number → Tables → Tables
unfolding finding_of write_call write_event get_or_create_caller seen_at
ingest_found set now e provider number t =
    let f = finding_of set now e provider number t in
    let seen = seen_at now e in
    write_event e f seen (record t {
      callers = get_or_create_caller f.caller seen t.callers;
      calls = write_call e f t.calls;
    })

unfoldable pub ingest_status_event :
    Setting → ℕ → String → NormalizedCallEvent → Tables → Result Tables
unfolding get_or_create_provider find_number is_outbound worded ingest_found
ingest_status_event set now name e t =
    let (provider, t') = get_or_create_provider name t in
    elim (find_number set provider name (is_outbound set e)
      (worded (if is_outbound set e then e.from_number else e.to_number)) t'.numbers) [
        | raise x ↦ raise x
        | ok number ↦ ok (ingest_found set now e provider number t')
      ]
