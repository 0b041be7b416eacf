-- ===== src/Providers/Asterisk/Reconcile/Beside.antt =====
-- A row of the table of calls beside the events that came in live.
use mathlib.Core.Path.{subst}
use owen_main.Common.{
  ℕ, ◌+◌, String, List, [], ◌∷◌, ◌++◌, ◌≡◌, refl, sym, ap, ◌∙◌, inl, inr, true, false, Option, none,
  some, str_eq, All, Bool-cases, append-nil, append_assoc, arith, Result, ok, raise, ok_inj,
}
use owen_main.Common.Assoc.{lookup}
use owen_main.Common.Json.{Dict}
use owen_main.Services.Ingestion.{NormalizedCallEvent, CallEvent}
use owen_main.Services.Ingestion.Whole.{same_event_call, conflicts, any_conflict}
use owen_main.Services.Ingestion.Logged.{log_row, ingest-provider, ingest-grows}
use owen_main.Providers.Asterisk.Records.{cdr_row_to_event-FromTable}
use owen_main.Providers.Asterisk.Reconcile.{
  provider_name, Scan, Written, row_event, ingest_row, reconcile_row, reconcile_rows, reconcile_cdr,
}
use owen_main.Providers.Asterisk.Reconcile.Logs.{
  Known, RowLogged, ingest_row-tables, reconcile_rows-AllLogs,
}

-- The log has no event of the type `cdr` of that call: what it has of it came in live.
abbrev pub OnlyLive : ℕ → String → List CallEvent → Type 0
OnlyLive id sid vs = All (λ v. same_event_call id sid v ≡ true → str_eq v.kind "cdr" ≡ false) vs

any_conflict-cdr :
    (id : ℕ) (e : NormalizedCallEvent) (vs : List CallEvent)
    → e.event_type ≡ "cdr"
    → OnlyLive id e.call_sid vs
    → any_conflict (log_row id e) vs ≡ false
unfolding any_conflict conflicts
any_conflict-cdr id e [] c h = refl
any_conflict-cdr id e (v ∷ vs) c (h, hs) =
    let rest = any_conflict-cdr id e vs c hs in
    elim (Bool-cases (same_event_call id e.call_sid v)) [
      | inl q ↦
          let apart : conflicts (log_row id e) v ≡ false =
            ground (arith, q, ap (str_eq v.kind) c ∙ h q) in
          rw apart rest
      | inr q ↦ let apart : conflicts (log_row id e) v ≡ false = ground (arith, q) in rw apart rest
    ]

any_conflict-append :
    (v : CallEvent) (vs ws : List CallEvent)
    → any_conflict v vs ≡ false
    → any_conflict v (vs ++ ws) ≡ true
    → any_conflict v ws ≡ true
unfolding any_conflict
any_conflict-append v [] ws h k = k
any_conflict-append v (u ∷ us) ws h k = elim (Bool-cases (conflicts v u)) [
  | inl q ↦ cc (rw q at h)
  | inr q ↦ any_conflict-append v us ws (rw q at h) (rw q at k)
]

abbrev Grows : Written → Written → Type 0
Grows w w' = (added : List CallEvent) × (w'.tables.events ≡ w.tables.events ++ added)

module _ (s : Scan) (id : ℕ) where
  reconcile_row-Grows :
      (now : ℕ) (o : Option NormalizedCallEvent) (w w' : Written) (k : ℕ)
      → Known id w
      → reconcile_row s now o w ≡ ok (k, w')
      → Known id w' × Grows w w'
  unfolding reconcile_row
  reconcile_row-Grows now none w w' k known h =
      let q = ap (λ v. v.1) (ok_inj h) in
      (
        subst (Known id) q known,
        ([], ap (λ v. v.tables.events) (sym q) ∙ sym (append-nil w.tables.events)),
      )
  reconcile_row-Grows now (some e) w w' k known h = go (ingest_row s now e w) refl h
    where
      go :
          (r : Result Written)
          → ingest_row s now e w ≡ r
          → elim r as (λ _. Result (ℕ × Written)) [ raise x ↦ raise x | ok v ↦ ok (1, v) ]
            ≡ ok (k, w')
          → Known id w' × Grows w w'
      go (raise x) q p = cc p
      go (ok v) q p =
          let t = ingest_row-tables s id now e w w' (q ∙ ap (λ u. ok u.1) (ok_inj p)) in
          (
            ingest-provider s.ingestion now provider_name e id w.tables w'.tables known t,
            ingest-grows s.ingestion now provider_name e id w.tables w'.tables known t,
          )

  reconcile_rows-Grows :
      (at : ℕ → ℕ) (kept : ℕ) (rows : List Dict) (w w' : Written) (n : ℕ)
      → Known id w
      → reconcile_rows s at kept rows w ≡ (ok n, w')
      → Grows w w'
  unfolding reconcile_rows
  reconcile_rows-Grows at kept [] w w' n known h =
      ([], ap (λ v. v.1.tables.events) (sym h) ∙ sym (append-nil w.tables.events))
  reconcile_rows-Grows at kept (row ∷ rows) w w' n known h =
      go (λ k v. reconcile_rows-Grows at (kept + k) rows v w' n)
        (reconcile_row s (at kept) (row_event s row) w) refl h
    where
      go :
          ((k : ℕ) (v : Written)
            → Known id v
            → reconcile_rows s at (kept + k) rows v ≡ (ok n, w')
            → Grows v w')
          → (r : Result (ℕ × Written)) → reconcile_row s (at kept) (row_event s row) w ≡ r
          → elim r as (λ _. Result ℕ × Written) [
            | raise x ↦ (raise x, w)
            | ok (k, v) ↦ reconcile_rows s at (kept + k) rows v
          ]
            ≡ (ok n, w')
          → Grows w w'
      go rest (raise x) q p = cc (ap (λ v. v.0) p)
      go rest (ok (k, v)) q p =
          let (known', (a, e)) = reconcile_row-Grows (at kept) (row_event s row) w v k known q in
          let (b, e') = rest k v known' p in
          (a ++ b, e' ∙ ap (λ l. l ++ b) e ∙ append_assoc w.tables.events a b)

All-middle :
    (P : Dict → Type 0) (earlier : List Dict) (row : Dict) (rest : List Dict)
    → All P (earlier ++ (row ∷ rest))
    → P row
All-middle P [] row rest (h, hs) = h
All-middle P (r ∷ rs) row rest (h, hs) = All-middle P rs row rest hs

-- A scan that returns keeps the log, and adds to it an event of the call, the key and the type `cdr` of each row
-- that makes one, if the log had live events of that call only: also where a live event has that key. The
-- provider is known.
pub reconcile_beside_live :
    (s : Scan) (at : ℕ → ℕ) (earlier rest : List Dict) (row : Dict) (e : NormalizedCallEvent)
    (w w' : Written) (n id : ℕ)
    → row_event s row ≡ some e
    → OnlyLive id e.call_sid w.tables.events
    → lookup provider_name w.tables.providers ≡ some id
    → reconcile_cdr s at (some (earlier ++ (row ∷ rest))) w ≡ (ok n, w')
    → (added : List CallEvent) × (w'.tables.events ≡ w.tables.events ++ added)
      × (any_conflict (log_row id e) added ≡ true)
unfolding reconcile_cdr row_event
reconcile_beside_live s at earlier rest row e w w' n id r live known h =
    let rows = earlier ++ (row ∷ rest) in
    let (added, grown) = reconcile_rows-Grows s id at 0 rows w w' n known h in
    let (_, _, logged) = reconcile_rows-AllLogs s id at 0 rows w w' n known h in
    let there =
      All-middle (λ r. RowLogged id w'.tables (row_event s r)) earlier row rest logged e r in
    let kind = (cdr_row_to_event-FromTable s.reader s.upper s.date_of row e r).0 in
    (
      added,
      grown,
      any_conflict-append (log_row id e) w.tables.events added
          (any_conflict-cdr id e w.tables.events kind live)
          (sym (ap (any_conflict (log_row id e)) grown) ∙ there),
    )
