-- ===== src/Providers/Asterisk/Reconcile.antt =====
-- backend/app/workers/asterisk_cdr.py: the rows of the table of calls are ingested, one transaction each.
-- What the query gives, the times of the ingestions and the column `relayed_to_ghl`, which no ingestion
-- writes, are parameters.
mod Logs
pub mod Replayed
pub mod Beside
mod Examples
use owen_main.Common.{
  ℕ, ◌+◌, String, List, [], ◌∷◌, ◌++◌, Bool, ◌&&◌, not, Option, none, some, leb, str_eq, Result, ok,
  raise, if◌then◌else◌,
}
use owen_main.Common.Assoc.{lookup}
use owen_main.Common.Json.{Value, Dict}
use owen_main.Services.Ingestion.{Setting, NormalizedCallEvent, Call, Tables}
use owen_main.Services.Ingestion.Write.{find_call}
use owen_main.Services.Ingestion.Whole.{ingest_status_event}
use owen_main.Providers.Asterisk.{Reader}
use owen_main.Providers.Asterisk.Records.{cdr_row_to_event}

abbrev pub provider_name : String
provider_name = "asterisk"

pub record Scan : Type 0 where
  pub reader : Reader
  pub upper : String → String
  pub date_of : Value → Option ℕ
  pub ingestion : Setting
  pub webhook_url : String
  pub relayed_to_ghl : Call → Bool

-- The tables, and the calls for which a job `call_relay_ghl` was enqueued, in order.
pub record Written : Type 0 where
  pub tables : Tables
  pub relays : List Call

-- The call that `ingest_status_event` returns.
unfoldable pub call_of : String → Tables → Option Call
unfolding lookup find_call
call_of sid t = elim (lookup provider_name t.providers) [
  | none ↦ none
  | some id ↦ find_call id sid t.calls
]

module _ (s : Scan) where
  unfoldable pub relay : Option Call → List Call → List Call
  relay none calls = calls
  relay (some c) calls =
      if not (str_eq s.webhook_url "") && (leb 4 c.status_rank && not (s.relayed_to_ghl c))
      then calls ++ (c ∷ [])
      else calls

  unfoldable pub row_event : Dict → Option NormalizedCallEvent
  row_event row = cdr_row_to_event s.reader s.upper s.date_of row

  -- One event at a time, and what is enqueued for it.
  unfoldable pub ingest_row : ℕ → NormalizedCallEvent → Written → Result Written
  unfolding ingest_status_event call_of relay
  ingest_row now e w = elim (ingest_status_event s.ingestion now provider_name e w.tables) [
    | raise x ↦ raise x
    | ok t ↦ ok (record { tables = t; relays = relay (call_of e.call_sid t) w.relays })
  ]

  -- A round of the loop: how many more rows are kept.
  unfoldable pub reconcile_row : ℕ → Option NormalizedCallEvent → Written → Result (ℕ × Written)
  unfolding ingest_row
  reconcile_row now none w = ok (0, w)
  reconcile_row now (some e) w = elim (ingest_row now e w) [
    | raise x ↦ raise x
    | ok w' ↦ ok (1, w')
  ]

  -- What was written before an exception stays. `at` gives the time of each ingestion.
  unfoldable pub reconcile_rows : (ℕ → ℕ) → ℕ → List Dict → Written → Result ℕ × Written
  unfolding reconcile_row row_event
  reconcile_rows at kept [] w = (ok kept, w)
  reconcile_rows at kept (row ∷ rows) w = elim (reconcile_row (at kept) (row_event row) w) [
    | raise x ↦ (raise x, w)
    | ok (k, w') ↦ reconcile_rows at (kept + k) rows w'
  ]

  -- The scan gives no rows where the query fails.
  unfoldable pub reconcile_cdr : (ℕ → ℕ) → Option (List Dict) → Written → Result ℕ × Written
  unfolding reconcile_rows
  reconcile_cdr at none w = (ok 0, w)
  reconcile_cdr at (some rows) w = reconcile_rows at 0 rows w
