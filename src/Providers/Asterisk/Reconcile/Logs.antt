-- ===== src/Providers/Asterisk/Reconcile/Logs.antt =====
-- What a scan of the table of calls puts into the log of events.
use mathlib.Core.Option.{some-injective}
use mathlib.Core.Path.{subst}
use owen_main.Common.{
  ℕ, ◌+◌, List, [], ◌∷◌, ◌≡◌, refl, ap, ◌∙◌, Option, none, some, All, Result, ok, raise, ok_inj,
}
use owen_main.Common.Assoc.{lookup}
use owen_main.Common.Json.{Dict}
use owen_main.Services.Ingestion.{NormalizedCallEvent, Tables}
use owen_main.Services.Ingestion.Whole.{ingest_status_event}
use owen_main.Services.Ingestion.Logged.{
  Logged, ingest-provider, ingest-Logged, ingest-keeps-Logged,
}
use owen_main.Providers.Asterisk.Records.{FromTable, cdr_row_to_event-FromTable}
use owen_main.Providers.Asterisk.Reconcile.{
  provider_name, Scan, Written, call_of, relay, row_event, ingest_row, reconcile_row,
  reconcile_rows,
}

-- `asterisk` is the provider of that number.
abbrev pub Known : ℕ → Written → Type 0
Known id w = lookup provider_name w.tables.providers ≡ some id

-- The event that is made of the row is in the log.
abbrev pub RowLogged : ℕ → Tables → Option NormalizedCallEvent → Type 0
RowLogged id t o = (e : NormalizedCallEvent) → o ≡ some e → Logged id e t

-- It comes from the table of calls.
abbrev Wanted : Option NormalizedCallEvent → Type 0
Wanted o = (e : NormalizedCallEvent) → o ≡ some e → FromTable e

module _ (s : Scan) (id : ℕ) where
  row_event-Wanted : (row : Dict) → Wanted (row_event s row)
  unfolding row_event
  row_event-Wanted row e h = cdr_row_to_event-FromTable s.reader s.upper s.date_of row e h

  -- An ingestion that returns is that of the event into the tables.
  pub ingest_row-tables :
      (now : ℕ) (e : NormalizedCallEvent) (w w' : Written)
      → ingest_row s now e w ≡ ok w'
      → ingest_status_event s.ingestion now provider_name e w.tables ≡ ok w'.tables
  unfolding ingest_row
  ingest_row-tables now e w w' h =
      go (ingest_status_event s.ingestion now provider_name e w.tables) h
    where
      go :
          (r : Result Tables)
          → elim r as (λ _. Result Written) [
            | raise x ↦ raise x
            | ok t ↦ ok (record { tables = t; relays = relay s (call_of e.call_sid t) w.relays })
          ]
            ≡ ok w'
          → r ≡ ok w'.tables
      go (raise x) q = cc q
      go (ok t) q = ap (λ v. ok v.tables) (ok_inj q)

  -- The provider is known, what was in the log is there, and so is the row.
  abbrev Logs : Option NormalizedCallEvent → Written → Written → Type 0
  Logs o w w' =
      Known id w'
      × ((d : NormalizedCallEvent) → Logged id d w.tables → Logged id d w'.tables)
      × RowLogged id w'.tables o

  reconcile_row-Logs :
      (now : ℕ) (o : Option NormalizedCallEvent) (w w' : Written) (k : ℕ)
      → Wanted o
      → Known id w
      → reconcile_row s now o w ≡ ok (k, w')
      → Logs o w w'
  unfolding reconcile_row
  reconcile_row-Logs now none w w' k wanted known h =
      let q = ap (λ v. v.1) (ok_inj h) in
      (subst (Known id) q known, λ d l. subst (λ v. Logged id d v.tables) q l, λ e p. cc p)
  reconcile_row-Logs now (some e) w w' k wanted known h = go (ingest_row s now e w) refl h
    where
      go :
          (r : Result Written)
          → ingest_row s now e w ≡ r
          → elim r as (λ _. Result (ℕ × Written)) [ raise x ↦ raise x | ok v ↦ ok (1, v) ]
            ≡ ok (k, w')
          → Logs (some e) w w'
      go (raise x) q p = cc p
      go (ok v) q p =
          let t = ingest_row-tables now e w w' (q ∙ ap (λ u. ok u.1) (ok_inj p)) in
          let (_, (key, sequence)) = wanted e refl in
          (
            ingest-provider s.ingestion now provider_name e id w.tables w'.tables known t,
            λ d l.
                ingest-keeps-Logged s.ingestion now provider_name e id w.tables w'.tables known t d
                  l,
            λ d p'.
                subst (λ u. Logged id u w'.tables) (some-injective _ _ p')
                  (ingest-Logged s.ingestion now provider_name e id w.tables w'.tables known t key
                    sequence),
          )

  abbrev pub AllLogs : List Dict → Written → Written → Type 0
  AllLogs rows w w' =
      Known id w'
      × ((d : NormalizedCallEvent) → Logged id d w.tables → Logged id d w'.tables)
      × All (λ row. RowLogged id w'.tables (row_event s row)) rows

  -- After a scan that returns, each of its rows is in the log.
  pub reconcile_rows-AllLogs :
      (at : ℕ → ℕ) (kept : ℕ) (rows : List Dict) (w w' : Written) (n : ℕ)
      → Known id w
      → reconcile_rows s at kept rows w ≡ (ok n, w')
      → AllLogs rows w w'
  unfolding reconcile_rows
  reconcile_rows-AllLogs at kept [] w w' n known h =
      let q = ap (λ v. v.1) h in
      (subst (Known id) q known, λ d l. subst (λ v. Logged id d v.tables) q l, tt)
  reconcile_rows-AllLogs at kept (row ∷ rows) w w' n known h =
      go (λ k v. reconcile_rows-AllLogs at (kept + k) rows v w' n)
        (reconcile_row s (at kept) (row_event s row) w) refl h
    where
      go :
          ((k : ℕ) (v : Written)
            → Known id v
            → reconcile_rows s at (kept + k) rows v ≡ (ok n, w')
            → AllLogs rows v w')
          → (r : Result (ℕ × Written)) → reconcile_row s (at kept) (row_event s row) w ≡ r
          → elim r as (λ _. Result ℕ × Written) [
            | raise x ↦ (raise x, w)
            | ok (k, v) ↦ reconcile_rows s at (kept + k) rows v
          ]
            ≡ (ok n, w')
          → AllLogs (row ∷ rows) w w'
      go rest (raise x) q p = cc (ap (λ v. v.0) p)
      go rest (ok (k, v)) q p =
          let (known', keeps, here) =
            reconcile_row-Logs (at kept) (row_event s row) w v k (row_event-Wanted row) known q in
          let (last, on, others) = rest k v known' p in
          (last, λ d l. on d (keeps d l), (λ e p'. on e (here e p'), others))
