-- ===== src/Services/Ingestion/Once.antt =====
-- However the events of calls are delivered, a caller's number of calls grows by no more than the calls that
-- the log comes to know.
use mathlib.Core.Path.{subst}
use owen_main.Common.{
  ℕ, suc, ◌+◌, ◌≤◌, String, List, [], ◌∷◌, ◌++◌, ◌≡◌, refl, sym, ap, ◌∙◌, inl, inr, Bool, true,
  false, ◌&&◌, Option, none, some, leb, ◌==◌, eq_iff, Bool-cases, arith, Result, ok, raise, ok_inj,
  ◌>>=◌, if◌then◌else◌,
}
use owen_main.Common.Assoc.{lookup}
use owen_main.Services.Ingestion.{
  Setting, NormalizedCallEvent, Caller, CallEvent, Tables, get_or_create_caller,
}
use owen_main.Services.Ingestion.Write.{Finding, write_call}
use owen_main.Services.Ingestion.Whole.{
  same_event_call, count_events, count_once, count_call, event_row, any_conflict, write_event,
  seen_at, finding_of, ingest_found, ingest_status_event,
}
use owen_main.Services.Ingestion.Ranks.{ingested, ingest_all}
use owen_main.Services.Ingestion.Logged.{ingest-provider}
use owen_main.Services.Ingestion.Counting.{total_of, total-get_or_create, count-append, own_event}

-- The number of calls of which there is an event.
abbrev pub calls_in : List CallEvent → ℕ
calls_in [] = 0
calls_in (v ∷ vs) =
    if count_events v.of_provider v.of_sid vs == 0 then suc (calls_in vs) else calls_in vs

same_sym :
    (u v : CallEvent)
    → same_event_call u.of_provider u.of_sid v ≡ same_event_call v.of_provider v.of_sid u
unfolding same_event_call
same_sym u v = ground (arith, eq_iff u.of_sid v.of_sid, eq_iff v.of_sid u.of_sid)

same_count :
    (u v : CallEvent) (vs : List CallEvent)
    → same_event_call u.of_provider u.of_sid v ≡ true
    → count_events u.of_provider u.of_sid vs ≡ count_events v.of_provider v.of_sid vs
unfolding same_event_call
same_count u v vs h =
    let p : v.of_provider ≡ u.of_provider = ground (arith, h) in
    let q : v.of_sid ≡ u.of_sid = ground (arith, h, eq_iff v.of_sid u.of_sid) in
    ap (λ n. count_events n u.of_sid vs) (sym p) ∙ ap (λ t. count_events v.of_provider t vs) (sym q)

calls_in-append :
    (vs : List CallEvent) (v : CallEvent)
    → calls_in (vs ++ (v ∷ []))
      ≡ (if count_events v.of_provider v.of_sid vs == 0 then suc (calls_in vs) else calls_in vs)
unfolding count_events
calls_in-append [] v = refl
calls_in-append (u ∷ vs) v = elim (Bool-cases (same_event_call u.of_provider u.of_sid v)) [
  | inl q ↦ ground (
    arith,
    q,
    sym (same_sym u v) ∙ q,
    same_count u v vs q,
    calls_in-append vs v,
    count-append u.of_provider u.of_sid v vs,
  )
  | inr q ↦ ground (
    arith,
    q,
    sym (same_sym u v) ∙ q,
    calls_in-append vs v,
    count-append u.of_provider u.of_sid v vs,
  )
]

total-count_call :
    (phone other : String) (seen : ℕ) (cs : List Caller)
    → total_of other (count_call phone seen cs) ≤ total_of other cs + 1
unfolding count_call
total-count_call phone other seen [] = omega arith
total-count_call phone other seen (c ∷ cs) = ground (arith, total-count_call phone other seen cs)

module _ (e : NormalizedCallEvent) (f : Finding) where
  -- A caller is counted only with the first event of a call.
  count_once-total :
      (seen : ℕ) (vs : List CallEvent) (cs : List Caller) (phone : String)
      → total_of phone (count_once e f seen (vs ++ (event_row e f ∷ [])) cs) + calls_in vs
        ≤ total_of phone cs + calls_in (vs ++ (event_row e f ∷ []))
  unfolding count_once event_row
  count_once-total seen vs cs phone = go f.caller
    where
      own : same_event_call f.provider e.call_sid (event_row e f) ≡ true
      own = own_event e f

      counted :
          (b : Bool) (one : Bool) (other : String)
          → (count_events f.provider e.call_sid (vs ++ (event_row e f ∷ [])) == 1) ≡ one
          → total_of phone (if b && one then count_call other seen cs else cs) + calls_in vs
            ≤ total_of phone cs + calls_in (vs ++ (event_row e f ∷ []))
      counted true true other q = ground (
        arith,
        q,
        own,
        count-append f.provider e.call_sid (event_row e f) vs,
        calls_in-append vs (event_row e f),
        total-count_call other phone seen cs,
      )
      counted true false other q = ground (arith, calls_in-append vs (event_row e f))
      counted false one other q = ground (arith, calls_in-append vs (event_row e f))

      go :
          (o : Option String)
          → total_of phone (elim o as (λ _. List Caller) [
            | none ↦ cs
            | some other ↦
                if leb 1 f.rank
                  && (count_events f.provider e.call_sid (vs ++ (event_row e f ∷ [])) == 1)
                then count_call other seen cs
                else cs
          ])
              + calls_in vs
            ≤ total_of phone cs + calls_in (vs ++ (event_row e f ∷ []))
      go none = ground (arith, calls_in-append vs (event_row e f))
      go (some other) =
          counted (leb 1 f.rank)
            (count_events f.provider e.call_sid (vs ++ (event_row e f ∷ [])) == 1) other refl

  write-total :
      (seen : ℕ) (t : Tables) (phone : String)
      → total_of phone (write_event e f seen t).callers + calls_in t.events
        ≤ total_of phone t.callers + calls_in (write_event e f seen t).events
  unfolding write_event
  write-total seen t phone = elim (Bool-cases (any_conflict (event_row e f) t.events)) [
    | inl q ↦ rw q (omega arith)
    | inr q ↦ rw q (count_once-total seen t.events t.callers phone)
  ]

-- The calls of a caller grow by no more than those that are new to the log.
abbrev GrowsLess : String → Tables → Tables → Type 0
GrowsLess phone t t' =
    total_of phone t'.callers + calls_in t.events ≤ total_of phone t.callers + calls_in t'.events

ingest-GrowsLess :
    (set : Setting) (now : ℕ) (name : String) (e : NormalizedCallEvent) (id : ℕ) (t t' : Tables)
    (phone : String)
    → lookup name t.providers ≡ some id
    → ingest_status_event set now name e t ≡ ok t'
    → GrowsLess phone t t'
unfolding ingest_found
ingest-GrowsLess set now name e id t t' phone k h =
    let (n, q) = ingested set now name e id t t' k h in
    let f = finding_of set now e id n t in
    let callers = get_or_create_caller f.caller (seen_at now e) t.callers in
    let mid : Tables = record t { callers = callers; calls = write_call e f t.calls } in
    let w = write-total e f (seen_at now e) mid phone in
    let same = total-get_or_create f.caller phone (seen_at now e) t.callers in
    subst (λ u. GrowsLess phone t u) (sym q) (omega (arith, w, same))

-- Whatever events of a known provider are delivered, in whatever order and however often: the number of calls
-- of a caller grows by no more than the number of calls of which the log has got its first event. So each call
-- is counted once at most.
pub ingest_all_counts_once :
    (set : Setting) (name : String) (id : ℕ) (es : List (ℕ × NormalizedCallEvent)) (t t' : Tables)
    (phone : String)
    → lookup name t.providers ≡ some id
    → ingest_all set name es t ≡ ok t'
    → total_of phone t'.callers + calls_in t.events ≤ total_of phone t.callers + calls_in t'.events
ingest_all_counts_once set name id [] t t' phone k h =
    subst (λ u. GrowsLess phone t u) (ok_inj h) (omega arith)
ingest_all_counts_once set name id ((now, e) ∷ es) t t' phone k h =
    go (ingest_status_event set now name e t) refl h
      (λ u. ingest_all_counts_once set name id es u t' phone)
  where
    go :
        (r : Result Tables)
        → ingest_status_event set now name e t ≡ r
        → (r >>= ingest_all set name es) ≡ ok t'
        → ((u : Tables)
            → lookup name u.providers ≡ some id
            → ingest_all set name es u ≡ ok t'
            → GrowsLess phone u t')
        → GrowsLess phone t t'
    go (raise x) q m rest = cc m
    go (ok u) q m rest = omega (
      arith,
      ingest-GrowsLess set now name e id t u phone k q,
      rest u (ingest-provider set now name e id t u k q) m,
    )
