-- ===== src/Services/Ingestion/Attribution.antt =====
-- The number of a call is not lost, and what a later event does to the time of the answer.
use owen_main.Common.{
  ℕ, ◌<◌, String, List, ◌≡◌, refl, sym, ap, ◌∙◌, inl, inr, Bool, true, false, ◌||◌, Option, none,
  some, lt→ltb, str_eq, eq_iff, Bool-cases, is_some, ok, if◌then◌else◌,
}
use owen_main.Common.Assoc.{lookup}
use owen_main.Services.Ingestion.{Setting, NormalizedCallEvent, Number, Call, Tables, or_else}
use owen_main.Services.Ingestion.Write.{
  Finding, find_call, advanced, outranked, filled, has_hole, attributed, unattributed, key_of,
  write_call,
}
use owen_main.Services.Ingestion.Whole.{finding_of, ingest_status_event}
use owen_main.Services.Ingestion.Forwarding.{set_if}
use owen_main.Services.Ingestion.Settled.{
  settled, backfill_row, attribute_row, own-write, other-write,
}
use owen_main.Services.Ingestion.Ranks.{ingested, found-calls, apart}

-- The call is attributed to a number.
abbrev pub Attributed : Option Call → Type 0
Attributed none = ⊥
Attributed (some c) = is_some c.number_id ≡ true

module _ (e : NormalizedCallEvent) (f : Finding) where
  attribute-number :
      (n : Option Number) (c : Call)
      → is_some c.number_id ≡ true
      → is_some (attribute_row e f n c).number_id ≡ true
  unfolding attributed
  attribute-number none c h = h
  attribute-number (some n) c h = go (unattributed c)
    where
      go : (b : Bool) → is_some (if b then attributed n f c else c).number_id ≡ true
      go true = refl
      go false = h

  backfill-number :
      (c : Call) → is_some c.number_id ≡ true → is_some (backfill_row e f c).number_id ≡ true
  unfolding filled
  backfill-number c h = go (is_some e.seconds || is_some e.answered) (has_hole c)
    where
      go : (a b : Bool) → is_some (if a then (if b then filled e c else c) else c).number_id ≡ true
      go true true = h
      go true false = h
      go false b = h

  advance-number :
      (c : Call)
      → is_some c.number_id ≡ true
      → is_some (set_if (outranked f) (advanced e f) c).number_id ≡ true
  unfolding advanced or_else
  advance-number c h = go (outranked f c) f.number
    where
      kept : (o : Option ℕ) → is_some (or_else o c.number_id) ≡ true
      kept none = h
      kept (some k) = refl

      go :
          (b : Bool) (n : Option Number)
          → is_some (if b then advanced e f c else c).number_id ≡ true
      go true n = kept (key_of f.number)
      go false n = h

  own-Attributed :
      (cs : List Call)
      → Attributed (find_call f.provider e.call_sid cs)
      → Attributed (find_call f.provider e.call_sid (write_call e f cs))
  own-Attributed cs a = rw (own-write e f cs) (go (find_call f.provider e.call_sid cs) a)
    where
      go : (o : Option Call) → Attributed o → is_some (settled e f o).number_id ≡ true
      go none a = absurd a
      go (some c) a = attribute-number f.number _ (backfill-number _ (advance-number c a))

  attribute-answer :
      (n : Option Number) (c : Call) → (attribute_row e f n c).answered_at ≡ c.answered_at
  unfolding attributed
  attribute-answer none c = refl
  attribute-answer (some n) c = go (unattributed c)
    where
      go : (b : Bool) → (if b then attributed n f c else c).answered_at ≡ c.answered_at
      go true = refl
      go false = refl

  backfill-answer :
      (c : Call)
      → e.answered ≡ none
      → c.answered_at ≡ none
      → (backfill_row e f c).answered_at ≡ none
  unfolding filled or_else
  backfill-answer c n h = go (is_some e.seconds || is_some e.answered) (has_hole c)
    where
      go : (a b : Bool) → (if a then (if b then filled e c else c) else c).answered_at ≡ none
      go true true = ap (λ o. or_else o e.answered) h ∙ n
      go true false = h
      go false b = h

  advance-answer :
      (c : Call)
      → c.status_rank < f.rank
      → (set_if (outranked f) (advanced e f) c).answered_at ≡ e.answered
  unfolding outranked advanced
  advance-answer c h = rw (lt→ltb c.status_rank f.rank h) refl

  -- An event of a higher rank that carries no time of the answer blanks the one that is there.
  pub settled_blanks_answer :
      (c : Call)
      → c.status_rank < f.rank
      → e.answered ≡ none
      → (settled e f (some c)).answered_at ≡ none
  settled_blanks_answer c h n =
      attribute-answer f.number _ ∙ backfill-answer _ n (advance-answer c h ∙ n)

-- A call that is attributed to a number stays attributed to one, whatever event comes: of this call or
-- of another, with a number or without. The provider is known.
pub ingest_keeps_attribution :
    (set : Setting) (now : ℕ) (name : String) (e : NormalizedCallEvent) (id : ℕ) (sid : String)
    (t t' : Tables)
    → lookup name t.providers ≡ some id
    → ingest_status_event set now name e t ≡ ok t'
    → Attributed (find_call id sid t.calls)
    → Attributed (find_call id sid t'.calls)
unfolding finding_of
ingest_keeps_attribution set now name e id sid t t' k h a =
    let w = ingested set now name e id t t' k h in
    rw (w.1, (found-calls set now name e id w.0 t).0)
      (elim (Bool-cases (str_eq e.call_sid sid)) [
        | inl q ↦ here id sid w.0 q a
        | inr q ↦
            rw
              (other-write e (finding_of set now e id w.0 t) id sid t.calls (
                apart e (finding_of set now e id w.0 t) id sid
                  (λ j. cc (q, (eq_iff e.call_sid sid).1 j))))
              a
      ])
  where
    here :
        (id : ℕ) (sid : String) (n : Option Number)
        → str_eq e.call_sid sid ≡ true
        → Attributed (find_call id sid t.calls)
        → Attributed (find_call id sid (write_call e (finding_of set now e id n t) t.calls))
    here id sid n q =
        rw (sym ((eq_iff e.call_sid sid).0 q))
          (own-Attributed e (finding_of set now e id n t) t.calls)
