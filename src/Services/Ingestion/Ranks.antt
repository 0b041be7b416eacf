-- ===== src/Services/Ingestion/Ranks.antt =====
-- The status of a call is that of its highest event, in whatever order the events come.
use owen_main.Common.{
  ℕ, max, String, List, [], ◌∷◌, ◌≡◌, ◌≢◌, refl, sym, ap, ◌∙◌, inl, inr, Bool, true, false, ◌||◌,
  Option, none, some, ltb, str_eq, eq_iff, Bool-cases, arith, is_some, Result, ok, raise, ok_inj,
  ◌>>=◌, if◌then◌else◌,
}
use owen_main.Common.Assoc.{lookup}
use owen_main.Services.Ingestion.{
  Setting, NormalizedCallEvent, Number, Call, Tables, rank_of, find_number, get_or_create_provider,
  is_outbound, worded,
}
use owen_main.Services.Ingestion.Write.{
  Finding, same_call, find_call, new_row, advanced, outranked, filled, has_hole, attributed,
  unattributed, write_call,
}
use owen_main.Services.Ingestion.Whole.{
  write_event, event_row, any_conflict, finding_of, ingest_found, ingest_status_event,
}
use owen_main.Services.Ingestion.Forwarding.{set_if, Apart, row_or_new}
use owen_main.Services.Ingestion.Settled.{
  settled, backfill_row, attribute_row, own-write, other-write,
}

abbrev pub rank_in : Option Call → ℕ
rank_in none = 0
rank_in (some c) = c.status_rank

-- The rank of a call; 0 where it is not known.
abbrev pub rank_at : ℕ → String → Tables → ℕ
rank_at provider sid t = rank_in (find_call provider sid t.calls)

module _ (e : NormalizedCallEvent) (f : Finding) where
  attribute-rank :
      (n : Option Number) (c : Call) → (attribute_row e f n c).status_rank ≡ c.status_rank
  unfolding attributed
  attribute-rank none c = refl
  attribute-rank (some n) c = go (unattributed c)
    where
      go : (b : Bool) → (if b then attributed n f c else c).status_rank ≡ c.status_rank
      go true = refl
      go false = refl

  backfill-rank : (c : Call) → (backfill_row e f c).status_rank ≡ c.status_rank
  unfolding filled
  backfill-rank c = go (is_some e.seconds || is_some e.answered) (has_hole c)
    where
      go :
          (a b : Bool)
          → (if a then (if b then filled e c else c) else c).status_rank ≡ c.status_rank
      go true true = refl
      go true false = refl
      go false b = refl

  advance-rank :
      (c : Call) → (set_if (outranked f) (advanced e f) c).status_rank ≡ max f.rank c.status_rank
  unfolding outranked advanced
  advance-rank c = elim (Bool-cases (ltb c.status_rank f.rank)) [
    | inl q ↦ rw q (ground arith)
    | inr q ↦ rw q (ground arith)
  ]

  settled-rank : (o : Option Call) → (settled e f o).status_rank ≡ max f.rank (rank_in o)
  unfolding new_row
  settled-rank o =
      attribute-rank f.number _ ∙ backfill-rank _ ∙ advance-rank (row_or_new e f o) ∙ go o
    where
      go : (o : Option Call) → max f.rank (row_or_new e f o).status_rank ≡ max f.rank (rank_in o)
      go none = ground arith
      go (some c) = refl

  -- Where the event is of another call.
  pub apart : (p : ℕ) (s : String) → e.call_sid ≢ s → Apart e f p s
  unfolding same_call
  apart p s n c h = ground (arith, eq_iff c.sid s, eq_iff c.sid e.call_sid)

write_event-calls :
    (e : NormalizedCallEvent) (f : Finding) (seen : ℕ) (t : Tables)
    → ((write_event e f seen t).calls ≡ t.calls)
      × ((write_event e f seen t).providers ≡ t.providers)
unfolding write_event
write_event-calls e f seen t = elim (Bool-cases (any_conflict (event_row e f) t.events)) [
  | inl q ↦ rw q (refl, refl)
  | inr q ↦ rw q (refl, refl)
]

module _ (set : Setting) (now : ℕ) (name : String) (e : NormalizedCallEvent) where
  known :
      (id : ℕ) (t : Tables)
      → lookup name t.providers ≡ some id
      → get_or_create_provider name t ≡ (id, t)
  unfolding get_or_create_provider
  known id t k = rw (get_or_create_provider, k) refl

  abbrev with_provider : ℕ × Tables → Result Tables
  with_provider (id, t) =
      elim (find_number set id name (is_outbound set e)
        (worded (if is_outbound set e then e.from_number else e.to_number)) t.numbers) [
          | raise x ↦ raise x
          | ok number ↦ ok (ingest_found set now e id number t)
        ]

  -- What is written, when the provider is known and the event does not raise.
  pub ingested :
      (id : ℕ) (t t' : Tables)
      → lookup name t.providers ≡ some id
      → ingest_status_event set now name e t ≡ ok t'
      → (n : Option Number) × (t' ≡ ingest_found set now e id n t)
  unfolding ingest_status_event
  ingested id t t' k h =
      go
        (find_number set id name (is_outbound set e)
          (worded (if is_outbound set e then e.from_number else e.to_number)) t.numbers)
        (sym (ap with_provider (known id t k)) ∙ h)
    where
      go :
          (r : Result (Option Number))
          → elim r as (λ _. Result Tables) [
            | raise x ↦ raise x
            | ok number ↦ ok (ingest_found set now e id number t)
          ]
            ≡ ok t'
          → (n : Option Number) × (t' ≡ ingest_found set now e id n t)
      go (raise x) h = cc h
      go (ok n) h = (n, sym (ok_inj h))

  pub found-calls :
      (id : ℕ) (n : Option Number) (t : Tables)
      → ((ingest_found set now e id n t).calls ≡ write_call e (finding_of set now e id n t) t.calls)
        × ((ingest_found set now e id n t).providers ≡ t.providers)
  unfolding ingest_found
  found-calls id n t = write_event-calls e (finding_of set now e id n t) _ _

  own_rank :
      (id : ℕ) (n : Option Number) (t : Tables)
      → rank_in (find_call id e.call_sid (write_call e (finding_of set now e id n t) t.calls))
        ≡ max (rank_of set e.event_status) (rank_at id e.call_sid t)
  unfolding finding_of
  own_rank id n t =
      let f = finding_of set now e id n t in
      ap rank_in (own-write e f t.calls) ∙ settled-rank e f (find_call id e.call_sid t.calls)

  found-rank :
      (id : ℕ) (n : Option Number) (sid : String) (t : Tables)
      → rank_at id sid (ingest_found set now e id n t) ≡ (
          if str_eq e.call_sid sid
          then max (rank_of set e.event_status) (rank_at id sid t)
          else rank_at id sid t)
  unfolding finding_of
  found-rank id n sid t =
      ap (λ cs. rank_in (find_call id sid cs)) (found-calls id n t).0
      ∙ elim (Bool-cases (str_eq e.call_sid sid)) [
        | inl q ↦ rw q (rw (sym ((eq_iff e.call_sid sid).0 q)) (own_rank id n t))
        | inr q ↦ rw q (
            ap rank_in (
              other-write e (finding_of set now e id n t) id sid t.calls (
                apart e (finding_of set now e id n t) id sid
                  (λ k. cc (q, (eq_iff e.call_sid sid).1 k)))))
      ]

-- One event after another; the first that raises ends it.
abbrev pub ingest_all : Setting → String → List (ℕ × NormalizedCallEvent) → Tables → Result Tables
ingest_all set name [] t = ok t
ingest_all set name ((now, e) ∷ es) t =
    ingest_status_event set now name e t >>= ingest_all set name es

-- The highest rank among the events of a call, and a rank to start from.
abbrev pub highest : Setting → String → List (ℕ × NormalizedCallEvent) → ℕ → ℕ
highest set sid [] start_rank = start_rank
highest set sid ((now, e) ∷ es) start_rank =
    if str_eq e.call_sid sid
    then max (rank_of set e.event_status) (highest set sid es start_rank)
    else highest set sid es start_rank

highest-max :
    (set : Setting) (sid : String) (es : List (ℕ × NormalizedCallEvent)) (a b : ℕ)
    → highest set sid es (max a b) ≡ max a (highest set sid es b)
highest-max set sid [] a b = refl
highest-max set sid ((now, e) ∷ es) a b = elim (Bool-cases (str_eq e.call_sid sid)) [
  | inl q ↦ rw (q, highest-max set sid es a b) (ground arith)
  | inr q ↦ rw q (highest-max set sid es a b)
]

-- After any sequence of events of a known provider, each call has the status rank of its highest
-- event, or of the row that was there if that is higher: the order of the events, repetitions and
-- the events of other calls make no difference.
pub ingest_all_rank :
    (set : Setting) (name : String) (id : ℕ) (sid : String) (es : List (ℕ × NormalizedCallEvent))
    (t t' : Tables)
    → lookup name t.providers ≡ some id
    → ingest_all set name es t ≡ ok t'
    → rank_at id sid t' ≡ highest set sid es (rank_at id sid t)
ingest_all_rank set name id sid [] t t' k h = ap (rank_at id sid) (sym (ok_inj h))
ingest_all_rank set name id sid ((now, e) ∷ es) t t' k h =
    go (ingest_status_event set now name e t) refl h (λ u. ingest_all_rank set name id sid es u t')
  where
    one :
        (n : Option Number)
        → highest set sid es (rank_at id sid (ingest_found set now e id n t))
          ≡ highest set sid ((now, e) ∷ es) (rank_at id sid t)
    one n =
        ap (highest set sid es) (found-rank set now name e id n sid t)
        ∙ elim (Bool-cases (str_eq e.call_sid sid)) [
          | inl q ↦ rw q (highest-max set sid es (rank_of set e.event_status) (rank_at id sid t))
          | inr q ↦ rw q refl
        ]

    go :
        (r : Result Tables)
        → ingest_status_event set now name e t ≡ r
        → (r >>= ingest_all set name es) ≡ ok t'
        → ((u : Tables)
            → lookup name u.providers ≡ some id
            → ingest_all set name es u ≡ ok t'
            → rank_at id sid t' ≡ highest set sid es (rank_at id sid u))
        → rank_at id sid t' ≡ highest set sid ((now, e) ∷ es) (rank_at id sid t)
    go (raise x) q m rest = cc m
    go (ok u) q m rest =
        let w = ingested set now name e id t u k q in
        rest u
          (ap (λ v. lookup name v.providers) w.1
            ∙ ap (lookup name) (found-calls set now name e id w.0 t).1
            ∙ k)
          m
        ∙ ap (λ v. highest set sid es (rank_at id sid v)) w.1
        ∙ one w.0
