-- ===== src/Services/Ingestion/Write.antt =====
-- The writes of `ingest_status_event` (backend/app/services/ingestion.py) to the table of calls.
use owen_main.Common.{
  ℕ, String, List, [], ◌∷◌, ◌++◌, Bool, true, false, not, ◌&&◌, ◌||◌, Option, none, some, ltb, ◌==◌,
  str_eq, is_some, if◌then◌else◌,
}
use owen_main.Services.Ingestion.{NormalizedCallEvent, Number, Call, or_else, or_text}

-- What the event says about the call, beside its own fields.
pub record Finding : Type 0 where
  pub provider : ℕ
  pub number : Option Number
  pub caller : Option String
  pub rank : ℕ
  pub is_new : Option Bool
  pub now : ℕ

abbrev pub key_of : Option Number → Option ℕ
key_of none = none
key_of (some n) = some n.number_key

abbrev pub campaign_of : Option Number → Option ℕ
campaign_of none = none
campaign_of (some n) = n.campaign

unfoldable pub same_call : ℕ → String → Call → Bool
same_call provider sid c = c.provider_id == provider && str_eq c.sid sid

unfoldable pub find_call : ℕ → String → List Call → Option Call
unfolding same_call
find_call provider sid [] = none
find_call provider sid (c ∷ cs) =
    let rest = find_call provider sid cs in if same_call provider sid c then some c else rest

equals_key : ℕ → Option ℕ → Bool
equals_key k none = false
equals_key k (some j) = j == k

-- A call of this caller in the campaign.
called_before : String → ℕ → List Call → Bool
unfolding equals_key
called_before phone campaign [] = false
called_before phone campaign (c ∷ cs) =
    let rest = called_before phone campaign cs in
    if (elim c.caller_id [ none ↦ false | some p ↦ str_eq p phone ])
      && equals_key campaign c.campaign_id
    then true
    else rest

-- `is_new_for_campaign`
unfoldable pub first_of_campaign : Option String → Option ℕ → List Call → Option Bool
unfolding called_before
first_of_campaign (some phone) (some campaign) calls =
    some (not (called_before phone campaign calls))
first_of_campaign _ _ calls = none

unfoldable pub new_row : NormalizedCallEvent → Finding → Call
new_row e f = record {
  provider_id = f.provider;
  sid = e.call_sid;
  number_id = key_of f.number;
  caller_id = f.caller;
  campaign_id = campaign_of f.number;
  direction = e.way;
  status = e.event_status;
  status_rank = f.rank;
  started_at = elim e.begun [ none ↦ f.now | some t ↦ t ];
  answered_at = e.answered;
  ended_at = e.ended;
  duration_seconds = e.seconds;
  forwarded_to = e.forwarded;
  is_new_for_campaign = f.is_new;
}

-- `INSERT ... ON CONFLICT DO NOTHING`
unfoldable pub insert_call : Call → List Call → List Call
unfolding find_call
insert_call row calls = elim (find_call row.provider_id row.sid calls) [
  | none ↦ calls ++ (row ∷ [])
  | some c ↦ calls
]

-- `UPDATE ... SET f WHERE w`
unfoldable pub update_calls : (Call → Bool) → (Call → Call) → List Call → List Call
update_calls w f [] = []
update_calls w f (c ∷ cs) = let rest = update_calls w f cs in if w c then f c ∷ rest else c ∷ rest

-- The status advance.
unfoldable pub advanced : NormalizedCallEvent → Finding → Call → Call
unfolding or_else or_text
advanced e f c = record c {
  status = e.event_status;
  status_rank = f.rank;
  answered_at = e.answered;
  ended_at = e.ended;
  duration_seconds = e.seconds;
  number_id = or_else (key_of f.number) c.number_id;
  caller_id = or_else f.caller c.caller_id;
  campaign_id = or_else (campaign_of f.number) c.campaign_id;
  direction = or_text e.way c.direction;
}

unfoldable pub outranked : Finding → Call → Bool
outranked f c = ltb c.status_rank f.rank

-- The back-fill of the duration and the answer.
unfoldable pub filled : NormalizedCallEvent → Call → Call
unfolding or_else
filled e c = record c {
  duration_seconds = or_else c.duration_seconds e.seconds;
  answered_at = or_else c.answered_at e.answered;
}

unfoldable pub has_hole : Call → Bool
has_hole c = not (is_some c.duration_seconds) || not (is_some c.answered_at)

-- The back-fill of the number.
unfoldable pub attributed : Number → Finding → Call → Call
unfolding or_else
attributed n f c = record c {
  number_id = some n.number_key;
  campaign_id = or_else n.campaign c.campaign_id;
  is_new_for_campaign = or_else f.is_new c.is_new_for_campaign;
}

unfoldable pub unattributed : Call → Bool
unattributed c = not (is_some c.number_id)

-- Each update is of the row of the event.
abbrev pub of_event : NormalizedCallEvent → Finding → (Call → Bool) → Call → Bool
of_event e f w c = same_call f.provider e.call_sid c && w c

unfoldable pub backfill : NormalizedCallEvent → Finding → List Call → List Call
unfolding update_calls same_call filled has_hole
backfill e f calls =
    if is_some e.seconds || is_some e.answered
    then update_calls (of_event e f has_hole) (filled e) calls
    else calls

unfoldable pub attribute : NormalizedCallEvent → Finding → Option Number → List Call → List Call
unfolding update_calls same_call attributed unattributed
attribute e f none calls = calls
attribute e f (some n) calls = update_calls (of_event e f unattributed) (attributed n f) calls

-- The four writes to `calls`.
unfoldable pub write_call : NormalizedCallEvent → Finding → List Call → List Call
unfolding insert_call new_row update_calls same_call advanced outranked backfill attribute
write_call e f calls =
    let inserted = insert_call (new_row e f) calls in
    let forwarded = update_calls (of_event e f (outranked f)) (advanced e f) inserted in
    attribute e f f.number (backfill e f forwarded)
