-- ===== src/Services/Ingestion/Settled.antt =====
-- The row of a call after an event: what the four writes make of it, and of the other calls' rows.
use owen_main.Common.{
  ℕ, String, List, ◌≡◌, refl, ap, ◌∙◌, Bool, true, false, ◌||◌, Option, none, some, is_some,
  if◌then◌else◌,
}
use owen_main.Services.Ingestion.{NormalizedCallEvent, Number, Call}
use owen_main.Services.Ingestion.Write.{
  Finding, same_call, find_call, insert_call, new_row, update_calls, advanced, outranked, filled,
  has_hole, attributed, unattributed, of_event, backfill, attribute, write_call,
}
use owen_main.Services.Ingestion.Forwarding.{
  on_row, set_if, Apart, row_or_new, find-own, find-other, find-insert, find-insert_other,
}

module _ (e : NormalizedCallEvent) (f : Finding) where
  abbrev pub backfill_row : Call → Call
  backfill_row c =
      if is_some e.seconds || is_some e.answered then set_if has_hole (filled e) c else c

  abbrev pub attribute_row : Option Number → Call → Call
  attribute_row none c = c
  attribute_row (some n) c = set_if unattributed (attributed n f) c

  abbrev pub settled : Option Call → Call
  settled o =
      attribute_row f.number (backfill_row (set_if (outranked f) (advanced e f) (row_or_new e f o)))

  abbrev own : List Call → Option Call
  own cs = find_call f.provider e.call_sid cs

  backfill-own : (cs : List Call) → own (backfill e f cs) ≡ on_row backfill_row (own cs)
  unfolding backfill filled same_call
  backfill-own cs = go (is_some e.seconds || is_some e.answered)
    where
      same : (o : Option Call) → o ≡ on_row (λ c. c) o
      same none = refl
      same (some c) = refl

      go :
          (b : Bool)
          → own (if b then update_calls (of_event e f has_hole) (filled e) cs else cs)
            ≡ on_row (λ c. if b then set_if has_hole (filled e) c else c) (own cs)
      go true = find-own e f has_hole (filled e) cs (λ c. refl)
      go false = same (own cs)

  attribute-own :
      (n : Option Number) (cs : List Call)
      → own (attribute e f n cs) ≡ on_row (attribute_row n) (own cs)
  unfolding attribute attributed same_call
  attribute-own none cs = same (own cs)
    where
      same : (o : Option Call) → o ≡ on_row (λ c. c) o
      same none = refl
      same (some c) = refl
  attribute-own (some n) cs = find-own e f unattributed (attributed n f) cs (λ c. refl)

  pub own-write : (cs : List Call) → own (write_call e f cs) ≡ some (settled (own cs))
  unfolding write_call advanced same_call
  own-write cs =
      let inserted = insert_call (new_row e f) cs in
      let forwarded = update_calls (of_event e f (outranked f)) (advanced e f) inserted in
      attribute-own f.number (backfill e f forwarded)
      ∙ ap (on_row (attribute_row f.number)) (
          backfill-own forwarded
          ∙ ap (on_row backfill_row) (
              find-own e f (outranked f) (advanced e f) inserted (λ c. refl)
              ∙ ap (on_row (set_if (outranked f) (advanced e f))) (find-insert e f cs)))

  -- An event leaves the rows of other calls as they are.
  pub other-write :
      (p : ℕ) (s : String) (cs : List Call)
      → Apart e f p s
      → find_call p s (write_call e f cs) ≡ find_call p s cs
  unfolding write_call advanced same_call backfill filled attribute attributed
  other-write p s cs a =
      let inserted = insert_call (new_row e f) cs in
      let forwarded = update_calls (of_event e f (outranked f)) (advanced e f) inserted in
      attribute-other f.number (backfill e f forwarded)
      ∙ backfill-other (is_some e.seconds || is_some e.answered) forwarded
      ∙ find-other e f p s (outranked f) (advanced e f) inserted (λ c. refl) a
      ∙ find-insert_other e f p s cs a
    where
      attribute-other :
          (n : Option Number) (cs : List Call)
          → find_call p s (attribute e f n cs) ≡ find_call p s cs
      attribute-other none cs = refl
      attribute-other (some n) cs =
          find-other e f p s unattributed (attributed n f) cs (λ c. refl) a

      backfill-other :
          (b : Bool) (cs : List Call)
          → find_call p s (if b then update_calls (of_event e f has_hole) (filled e) cs else cs)
            ≡ find_call p s cs
      backfill-other true cs = find-other e f p s has_hole (filled e) cs (λ c. refl) a
      backfill-other false cs = refl
