-- ===== src/Services/Ingestion/Logged.antt =====
-- The log of events: an event that it holds already is not written again.
use owen_main.Common.{
  ℕ, String, List, [], ◌∷◌, ◌++◌, ◌≡◌, refl, ap, sym, append-nil, ◌∙◌, inl, inr, true, false,
  Option, none, some, eq_iff, Bool-cases, arith, ok,
}
use owen_main.Common.Assoc.{lookup}
use owen_main.Services.Ingestion.{Setting, NormalizedCallEvent, CallEvent, Tables}
use owen_main.Services.Ingestion.Whole.{
  same_event_call, equal_sequence, conflicts, any_conflict, event_row, write_event, finding_of,
  ingest_found, ingest_status_event,
}
use owen_main.Services.Ingestion.Ranks.{ingested, found-calls}
use owen_main.Services.Ingestion.Counting.{total_of, total-get_or_create}

-- The row of the log that the event of a call of that provider makes.
abbrev pub log_row : ℕ → NormalizedCallEvent → CallEvent
log_row id e = record {
  of_provider = id;
  of_sid = e.call_sid;
  kind = e.event_type;
  provider_sequence = e.sequence;
}

abbrev pub Logged : ℕ → NormalizedCallEvent → Tables → Type 0
Logged id e t = any_conflict (log_row id e) t.events ≡ true

any_conflict-append-left :
    (v : CallEvent) (vs ws : List CallEvent)
    → any_conflict v vs ≡ true
    → any_conflict v (vs ++ ws) ≡ true
unfolding any_conflict
any_conflict-append-left v [] ws h = cc h
any_conflict-append-left v (u ∷ us) ws h = elim (Bool-cases (conflicts v u)) [
  | inl q ↦ rw q refl
  | inr q ↦ rw q (any_conflict-append-left v us ws (rw q at h))
]

any_conflict-append-right :
    (v u : CallEvent) (vs : List CallEvent)
    → conflicts v u ≡ true
    → any_conflict v (vs ++ (u ∷ [])) ≡ true
unfolding any_conflict
any_conflict-append-right v u [] h = rw h refl
any_conflict-append-right v u (w ∷ vs) h = elim (Bool-cases (conflicts v w)) [
  | inl q ↦ rw q refl
  | inr q ↦ rw q (any_conflict-append-right v u vs h)
]

equal_sequence_self : (o : Option String) (q : String) → o ≡ some q → equal_sequence o o ≡ true
unfolding equal_sequence
equal_sequence_self none q h = cc h
equal_sequence_self (some a) q h = (eq_iff a a).1 refl

conflicts_self :
    (id : ℕ) (e : NormalizedCallEvent) (q : String)
    → e.sequence ≡ some q
    → conflicts (log_row id e) (log_row id e) ≡ true
unfolding conflicts same_event_call
conflicts_self id e q h = ground (
  arith,
  eq_iff e.call_sid e.call_sid,
  eq_iff e.event_type e.event_type,
  equal_sequence_self e.sequence q h,
)

module _ (set : Setting) (now : ℕ) (name : String) (e : NormalizedCallEvent) (id : ℕ) where
  module _ (t t' : Tables) (k : lookup name t.providers ≡ some id) where
    module _ (h : ingest_status_event set now name e t ≡ ok t') where
      pub ingest-provider : lookup name t'.providers ≡ some id
      ingest-provider =
          let w = ingested set now name e id t t' k h in
          ap (λ u. lookup name u.providers) w.1
          ∙ ap (lookup name) (found-calls set now name e id w.0 t).1
          ∙ k

      -- An event with a key is in the log after its ingestion,
      pub ingest-Logged : (q : String) → e.sequence ≡ some q → Logged id e t'
      unfolding ingest_found finding_of write_event event_row
      ingest-Logged q p =
          let w = ingested set now name e id t t' k h in
          ap (λ u. any_conflict (log_row id e) u.events) w.1
          ∙ elim (Bool-cases (any_conflict (log_row id e) t.events)) [
            | inl c ↦ rw c c
            | inr c ↦ rw c (
                any_conflict-append-right (log_row id e) (log_row id e) t.events
                  (conflicts_self id e q p))
          ]

      -- what is in the log stays there,
      pub ingest-keeps-Logged : (d : NormalizedCallEvent) → Logged id d t → Logged id d t'
      unfolding ingest_found finding_of write_event event_row
      ingest-keeps-Logged d l =
          let w = ingested set now name e id t t' k h in
          ap (λ u. any_conflict (log_row id d) u.events) w.1
          ∙ elim (Bool-cases (any_conflict (log_row id e) t.events)) [
            | inl c ↦ rw c l
            | inr c ↦ rw c (any_conflict-append-left (log_row id d) t.events _ l)
          ]

      -- and an event that is there writes no row and counts no call.
      pub ingest-again :
          (phone : String)
          → Logged id e t
          → (t'.events ≡ t.events) × (total_of phone t'.callers ≡ total_of phone t.callers)
      unfolding ingest_found finding_of write_event event_row
      ingest-again phone l =
          let w = ingested set now name e id t t' k h in
          (
            ap (λ u. u.events) w.1 ∙ rw l refl,
            ap (λ u. total_of phone u.callers) w.1 ∙ rw l (total-get_or_create _ phone _ t.callers),
          )

      -- An event that is not there adds its row at the end.
      pub ingest-fresh :
          any_conflict (log_row id e) t.events ≡ false → t'.events ≡ t.events ++ (log_row id e ∷ [])
      unfolding ingest_found finding_of write_event event_row
      ingest-fresh c =
          let w = ingested set now name e id t t' k h in ap (λ u. u.events) w.1 ∙ rw c refl

      -- The log only grows.
      pub ingest-grows : (added : List CallEvent) × (t'.events ≡ t.events ++ added)
      unfolding ingest_found finding_of write_event event_row
      ingest-grows =
          let w = ingested set now name e id t t' k h in
          elim (Bool-cases (any_conflict (log_row id e) t.events)) [
            | inl c ↦ ([], ap (λ u. u.events) w.1 ∙ rw c (sym (append-nil t.events)))
            | inr c ↦ (log_row id e ∷ [], ap (λ u. u.events) w.1 ∙ rw c refl)
          ]
