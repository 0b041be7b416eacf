-- ===== src/Providers/Asterisk/Records.antt =====
-- What providers/asterisk.py makes of a finished recording and of a row of the table of calls (CDR). A time of a
-- row is read by a parameter, and raw payloads are left out.
use mathlib.Core.Path.{subst}
use mathlib.Core.Option.{some-injective}
use Prim.Native.Char.{Char, code}
use text.Mathlib.TextLemmas.{nil-append, cons-append}
use Prim.Native.String.{◌++◌}
use owen_main.Common.{
  ℕ, ◌≡◌, refl, ap, ◌∙◌, String, List, [], ◌∷◌, Bool, true, false, ◌&&◌, not, Option, none, some,
  ◌==◌, All, str_eq, Result, ok, raise, type_error, if◌then◌else◌,
}
use owen_main.Common.Assoc.{lookup}
use owen_main.Common.Json.{
  Value, int, ℤ, pos, negsuc, signed, Dict, get, as_dict, null, truthy, is_text, hashable,
}
use owen_main.Common.Print.{str_of}
use owen_main.Common.Chars.{codes, text_of, strip}
use owen_main.Services.Ingestion.{NormalizedCallEvent}
use owen_main.Providers.Asterisk.{Reader, text_of_value}

pub record NormalizedRecordingEvent : Type 0 where
  pub recorded_call : String
  pub recording_sid : String
  pub recording_status : Option String
  pub recording_seconds : Option ℤ

abbrev pub rec_state_to_status : List (String × String)
rec_state_to_status = ("done", "completed") ∷ ("failed", "failed") ∷ ("canceled", "canceled") ∷ []

abbrev pub disposition_to_status : List (String × String)
disposition_to_status =
    ("ANSWERED", "completed")
    ∷ ("NO ANSWER", "no-answer")
    ∷ ("NOANSWER", "no-answer")
    ∷ ("BUSY", "busy")
    ∷ ("FAILED", "failed")
    ∷ ("CONGESTION", "failed")
    ∷ []

-- `s.split("-", 1)[0]`
unfoldable pub before_dash : List Char → List Char
before_dash [] = []
before_dash (c ∷ cs) = let rest = before_dash cs in if code c == 45 then [] else c ∷ rest

unfoldable pub recording_linkedid : String → String
unfolding before_dash
recording_linkedid name = text_of (before_dash (codes name))

is_none_value : Value → Bool
is_none_value null = true
is_none_value _ = false

-- A whole number of seconds, if the value has one.
unfoldable pub seconds_of : Option Value → Option ℤ
unfolding signed
seconds_of (some (int s n)) = some (signed s n)
seconds_of _ = none

-- `a or b`
unfoldable pub or_number : Option ℤ → Option ℤ → Option ℤ
or_number (some (pos n)) later = if n == 0 then later else some (pos n)
or_number (some (negsuc n)) later = some (negsuc n)
or_number none later = later

module _ (rd : Reader) where
  unfoldable pub recording_status_of : String → Option String
  unfolding lookup
  recording_status_of state = elim (lookup state rec_state_to_status) [
    | some s ↦ some s
    | none ↦ if str_eq state "" then none else some state
  ]

  unfoldable pub parse_recording_event : Dict → NormalizedRecordingEvent
  unfolding recording_linkedid text_of_value recording_status_of seconds_of is_none_value
  parse_recording_event e =
      let rec : Dict = elim (as_dict (get "recording" e)) [ none ↦ [] | some d ↦ d ] in
      let name = text_of_value (get "name" rec) in
      record {
        recorded_call = recording_linkedid name;
        recording_sid = name;
        recording_status = recording_status_of (rd.lower (text_of_value (get "state" rec)));
        recording_seconds =
            if is_none_value (get "duration" rec)
            then none
            else seconds_of (rd.as_int (get "duration" rec));
      }

  -- A type that is no text is in no set of types; one that cannot be hashed raises.
  unfoldable pub route_recording : Dict → Result (Option NormalizedRecordingEvent)
  unfolding parse_recording_event
  route_recording e =
      if not (hashable (get "type" e))
      then raise type_error
      else if not (is_text "RecordingFinished" (get "type" e))
      then ok none
      else let r = parse_recording_event e in
        if str_eq r.recording_sid ""
        then ok none
        else if str_eq r.recorded_call ""
        then ok none
        else ok (some r)

  module _ (upper : String → String) (date_of : Value → Option ℕ) where
    unfoldable pub disposition_status : Value → String
    unfolding lookup text_of_value strip
    disposition_status v = elim (lookup (upper (strip (text_of_value v))) disposition_to_status) [
      | some s ↦ s
      | none ↦ "failed"
    ]

    -- `_int`
    unfoldable pub int_of : Value → Option ℤ
    unfolding seconds_of is_none_value
    int_of v =
        if is_none_value v
        then none
        else if str_eq (str_of v) ""
        then none
        else seconds_of (rd.as_int v)

    unfoldable pub text_or_none : Value → Option String
    text_or_none v = if truthy v then some (str_of v) else none

    unfoldable pub cdr_event : String → String → Dict → NormalizedCallEvent
    unfolding int_of text_or_none or_number
    cdr_event lid status row = record {
      call_sid = lid;
      event_type = "cdr";
      event_status = some status;
      from_number = text_or_none (get "src" row);
      to_number = text_or_none (get "dst" row);
      way = some "inbound";
      begun = date_of (get "start" row);
      answered = date_of (get "answer" row);
      ended = date_of (get "end" row);
      seconds = or_number (int_of (get "billsec" row)) (int_of (get "duration" row));
      forwarded = none;
      sequence = some (lid ++ ":" ++ status);
    }

    unfoldable pub cdr_row_to_event : Dict → Option NormalizedCallEvent
    unfolding text_of_value disposition_status cdr_event
    cdr_row_to_event row =
        let lid = text_of_value (get "linkedid" row) in
        let uniqueid = text_of_value (get "uniqueid" row) in
        if str_eq lid ""
        then none
        else if not (str_eq uniqueid "") && not (str_eq uniqueid lid)
        then none
        else some (cdr_event lid (disposition_status (get "disposition" row)) row)

before_dash-append :
    (lid rest : String)
    → All (λ c. (code c == 45) ≡ false) (codes lid)
    → text_of (before_dash (codes (lid ++ ("-" ++ rest)))) ≡ lid
unfolding before_dash
before_dash-append String.[] rest h =
    ap (λ t. text_of (before_dash (codes t)))
      (nil-append ("-" ++ rest)
        ∙ cons-append "-" "" rest
        ∙ ap (λ t. String.◌∷◌ "-" t) (nil-append rest))
before_dash-append (String.◌∷◌ c lid) rest h =
    ap (λ t. text_of (before_dash (codes t))) (cons-append c lid _)
    ∙ go (code c == 45) h.0 (ap (λ t. String.◌∷◌ c t) (before_dash-append lid rest h.1))
  where
    go :
        (b : Bool)
        → b ≡ false
        → String.◌∷◌ c (text_of (before_dash (codes (lid ++ ("-" ++ rest))))) ≡ String.◌∷◌ c lid
        → text_of (if b then [] else c ∷ before_dash (codes (lid ++ ("-" ++ rest))))
          ≡ String.◌∷◌ c lid
    go true q e = cc q
    go false q e = e

-- A recording that is named by a call's linked id, a dash and anything after it belongs to that call, if the
-- linked id has no dash.
pub recording_linkedid-append :
    (lid rest : String)
    → All (λ c. (code c == 45) ≡ false) (codes lid)
    → recording_linkedid (lid ++ ("-" ++ rest)) ≡ lid
unfolding recording_linkedid
recording_linkedid-append lid rest h = before_dash-append lid rest h

-- An event of a row of the table has its own type, and a key.
abbrev pub FromTable : NormalizedCallEvent → Type 0
FromTable evt = (evt.event_type ≡ "cdr") × ((q : String) × (evt.sequence ≡ some q))

module _ (rd : Reader) (upper : String → String) (date_of : Value → Option ℕ) where
  pub cdr_row_to_event-FromTable :
      (row : Dict) (evt : NormalizedCallEvent)
      → cdr_row_to_event rd upper date_of row ≡ some evt
      → FromTable evt
  unfolding cdr_row_to_event cdr_event
  cdr_row_to_event-FromTable row evt h =
      let lid = text_of_value (get "linkedid" row) in
      let uniqueid = text_of_value (get "uniqueid" row) in
      go (str_eq lid "") (not (str_eq uniqueid "") && not (str_eq uniqueid lid)) lid
        (disposition_status rd upper date_of (get "disposition" row)) h
    where
      go :
          (a b : Bool) (lid status : String)
          → (if a
              then none
              else if b
              then none
              else some (cdr_event rd upper date_of lid status row))
            ≡ some evt
          → FromTable evt
      go true b lid status e = cc e
      go false true lid status e = cc e
      go false false lid status e =
          subst (λ v. FromTable v) (some-injective _ _ e) (refl, (lid ++ ":" ++ status, refl))
