-- ===== src/Providers/Asterisk/Reconcile/Replayed.antt =====
-- A scan of the table of calls that is run again.
use mathlib.Core.Path.{subst}
use owen_main.Common.{
  ℕ, ◌+◌, String, List, [], ◌∷◌, ◌≡◌, refl, sym, ap, ◌∙◌, Option, none, some, All, All-imp, Result,
  ok, raise, ok_inj,
}
use owen_main.Common.Assoc.{lookup}
use owen_main.Common.Json.{Dict}
use owen_main.Services.Ingestion.{NormalizedCallEvent}
use owen_main.Services.Ingestion.Whole.{any_conflict}
use owen_main.Services.Ingestion.Logged.{Logged, log_row, ingest-provider, ingest-again}
use owen_main.Services.Ingestion.Counting.{total_of}
use owen_main.Providers.Asterisk.Reconcile.{
  provider_name, Scan, Written, row_event, ingest_row, reconcile_row, reconcile_rows, reconcile_cdr,
}
use owen_main.Providers.Asterisk.Reconcile.Logs.{
  Known, RowLogged, ingest_row-tables, reconcile_rows-AllLogs,
}

module _ (s : Scan) (id : ℕ) where
  -- No row is added to the log and no call is counted.
  abbrev Same : Written → Written → Type 0
  Same w w' =
      (w'.tables.events ≡ w.tables.events)
      × ((phone : String) → total_of phone w'.tables.callers ≡ total_of phone w.tables.callers)

  Same-trans : (u v w : Written) → Same u v → Same v w → Same u w
  Same-trans u v w (p, q) (p', q') = (p' ∙ p, λ phone. q' phone ∙ q phone)

  reconcile_row-again :
      (now : ℕ) (o : Option NormalizedCallEvent) (w w' : Written) (k : ℕ)
      → Known id w
      → RowLogged id w.tables o
      → reconcile_row s now o w ≡ ok (k, w')
      → Known id w' × Same w w'
  unfolding reconcile_row
  reconcile_row-again now none w w' k known l h =
      let q = ap (λ v. v.1) (ok_inj h) in
      (
        subst (Known id) q known,
        (
          ap (λ v. v.tables.events) (sym q),
          λ phone. ap (λ v. total_of phone v.tables.callers) (sym q),
        ),
      )
  reconcile_row-again now (some e) w w' k known l h = go (ingest_row s now e w) refl h
    where
      go :
          (r : Result Written)
          → ingest_row s now e w ≡ r
          → elim r as (λ _. Result (ℕ × Written)) [ raise x ↦ raise x | ok v ↦ ok (1, v) ]
            ≡ ok (k, w')
          → Known id w' × Same w w'
      go (raise x) q p = cc p
      go (ok v) q p =
          let t = ingest_row-tables s id now e w w' (q ∙ ap (λ u. ok u.1) (ok_inj p)) in
          let again = λ (phone : String).
            ingest-again s.ingestion now provider_name e id w.tables w'.tables known t phone
              (l e refl) in
          (
            ingest-provider s.ingestion now provider_name e id w.tables w'.tables known t,
            ((again "").0, λ phone. (again phone).1),
          )

  Logged-Same :
      (d : NormalizedCallEvent) (w w' : Written)
      → Same w w'
      → Logged id d w.tables
      → Logged id d w'.tables
  Logged-Same d w w' (p, q) l = ap (any_conflict (log_row id d)) p ∙ l

  -- Where the rows are in the log, a scan leaves the log and the counts as they are.
  reconcile_rows-again :
      (at : ℕ → ℕ) (kept : ℕ) (rows : List Dict) (w : Written)
      → Known id w
      → All (λ row. RowLogged id w.tables (row_event s row)) rows
      → Same w (reconcile_rows s at kept rows w).1
  unfolding reconcile_rows
  reconcile_rows-again at kept [] w known l = (refl, λ phone. refl)
  reconcile_rows-again at kept (row ∷ rows) w known (here, l) =
      go (λ k v. reconcile_rows-again at (kept + k) rows v)
        (reconcile_row s (at kept) (row_event s row) w) refl
    where
      go :
          ((k : ℕ) (v : Written)
            → Known id v
            → All (λ row. RowLogged id v.tables (row_event s row)) rows
            → Same v (reconcile_rows s at (kept + k) rows v).1)
          → (r : Result (ℕ × Written)) → reconcile_row s (at kept) (row_event s row) w ≡ r
          → Same w
              (elim r as (λ _. Result ℕ × Written) [
                | raise x ↦ (raise x, w)
                | ok (k, v) ↦ reconcile_rows s at (kept + k) rows v
              ]).1
      go rest (raise x) q = (refl, λ phone. refl)
      go rest (ok (k, v)) q =
          let (known', same) = reconcile_row-again (at kept) (row_event s row) w v k known here q in
          Same-trans w v ((reconcile_rows s at (kept + k) rows v).1) same
            (rest k v known' (All-imp (λ r h e p. Logged-Same e w v same (h e p)) rows l))

-- A scan that is run again on the same rows, at whatever times, adds no row to the log of events and counts no
-- call for any caller, also where it raises. The first scan has returned; the provider is known.
pub reconcile_again :
    (s : Scan) (at at' : ℕ → ℕ) (rows : List Dict) (w w' : Written) (n id : ℕ)
    → lookup provider_name w.tables.providers ≡ some id
    → reconcile_cdr s at (some rows) w ≡ (ok n, w')
    → let w'' = (reconcile_cdr s at' (some rows) w').1 in
      (w''.tables.events ≡ w'.tables.events)
      × ((phone : String) → total_of phone w''.tables.callers ≡ total_of phone w'.tables.callers)
unfolding reconcile_cdr
reconcile_again s at at' rows w w' n id known h =
    let (known', _, logged) = reconcile_rows-AllLogs s id at 0 rows w w' n known h in
    reconcile_rows-again s id at' 0 rows w' known' logged
