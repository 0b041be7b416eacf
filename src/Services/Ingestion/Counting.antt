-- ===== src/Services/Ingestion/Counting.antt =====
-- A call is counted once for its caller, and its number is not lost.
use owen_main.Common.{
  ℕ, suc, ◌<◌, String, List, [], ◌∷◌, ◌++◌, ◌≡◌, refl, ap, ◌∙◌, inl, inr, Bool, true, false, ◌&&◌,
  Option, none, some, leb, ◌==◌, str_eq, eq_iff, Bool-cases, arith, ok, if◌then◌else◌,
}
use owen_main.Common.Assoc.{lookup}
use owen_main.Services.Ingestion.{
  Setting, NormalizedCallEvent, Caller, CallEvent, Tables, upsert_caller, get_or_create_caller,
}
use owen_main.Services.Ingestion.Write.{Finding}
use owen_main.Services.Ingestion.Whole.{
  same_event_call, count_events, count_once, count_call, event_row, any_conflict, write_event,
  finding_of, ingest_found, ingest_status_event,
}
use owen_main.Services.Ingestion.Ranks.{ingested}

-- How many calls the caller has; none before the first.
abbrev pub total_of : String → List Caller → ℕ
total_of phone [] = 0
total_of phone (c ∷ cs) = if str_eq c.caller_phone phone then c.total_calls else total_of phone cs

total-upsert :
    (phone other : String) (seen : ℕ) (cs : List Caller)
    → total_of other (upsert_caller phone seen cs) ≡ total_of other cs
unfolding upsert_caller
total-upsert phone other seen [] = ground arith
total-upsert phone other seen (c ∷ cs) = ground (arith, total-upsert phone other seen cs)

pub total-get_or_create :
    (o : Option String) (other : String) (seen : ℕ) (cs : List Caller)
    → total_of other (get_or_create_caller o seen cs) ≡ total_of other cs
unfolding get_or_create_caller
total-get_or_create none other seen cs = refl
total-get_or_create (some phone) other seen cs = total-upsert phone other seen cs

pub count-append :
    (p : ℕ) (s : String) (v : CallEvent) (vs : List CallEvent)
    → count_events p s (vs ++ (v ∷ []))
      ≡ (if same_event_call p s v then suc (count_events p s vs) else count_events p s vs)
unfolding count_events
count-append p s v [] = refl
count-append p s v (w ∷ vs) = ground (arith, count-append p s v vs)

module _ (e : NormalizedCallEvent) (f : Finding) where
  pub own_event : same_event_call f.provider e.call_sid (event_row e f) ≡ true
  unfolding same_event_call event_row
  own_event = ground (arith, eq_iff e.call_sid e.call_sid)

  -- With another event of the call there, the new one is not its only one.
  uncounted :
      (seen : ℕ) (vs : List CallEvent) (cs : List Caller)
      → 0 < count_events f.provider e.call_sid vs
      → count_once e f seen (vs ++ (event_row e f ∷ [])) cs ≡ cs
  unfolding count_once
  uncounted seen vs cs h = go f.caller
    where
      many : (count_events f.provider e.call_sid (vs ++ (event_row e f ∷ [])) == 1) ≡ false
      many =
          rw (count-append f.provider e.call_sid (event_row e f) vs, own_event) (ground (arith, h))

      bumped :
          (phone : String) (b : Bool)
          → (if b && (count_events f.provider e.call_sid (vs ++ (event_row e f ∷ [])) == 1)
              then count_call phone seen cs
              else cs)
            ≡ cs
      bumped phone true = rw many refl
      bumped phone false = refl

      go :
          (o : Option String)
          → elim o as (λ _. List Caller) [
            | none ↦ cs
            | some phone ↦
                if leb 1 f.rank
                  && (count_events f.provider e.call_sid (vs ++ (event_row e f ∷ [])) == 1)
                then count_call phone seen cs
                else cs
          ]
            ≡ cs
      go none = refl
      go (some phone) = bumped phone (leb 1 f.rank)

  write-total :
      (seen : ℕ) (t : Tables) (phone : String)
      → 0 < count_events f.provider e.call_sid t.events
      → total_of phone (write_event e f seen t).callers ≡ total_of phone t.callers
  unfolding write_event
  write-total seen t phone h = elim (Bool-cases (any_conflict (event_row e f) t.events)) [
    | inl q ↦ rw q refl
    | inr q ↦ rw q (ap (total_of phone) (uncounted seen t.events t.callers h))
  ]

-- An event of a call of which an event is there already changes no caller's number of calls. The
-- provider is known.
pub ingest_counts_once :
    (set : Setting) (now : ℕ) (name : String) (e : NormalizedCallEvent) (id : ℕ) (t t' : Tables)
    (phone : String)
    → lookup name t.providers ≡ some id
    → 0 < count_events id e.call_sid t.events
    → ingest_status_event set now name e t ≡ ok t'
    → total_of phone t'.callers ≡ total_of phone t.callers
unfolding ingest_found finding_of
ingest_counts_once set now name e id t t' phone k c h =
    let w = ingested set now name e id t t' k h in
    ap (λ u. total_of phone u.callers) w.1
    ∙ write-total e (finding_of set now e id w.0 t) _ _ phone c
    ∙ total-get_or_create _ phone _ t.callers
