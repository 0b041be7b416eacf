-- ===== src/Providers/Asterisk/Router.antt =====
-- `AsteriskEventRouter` of backend/app/providers/asterisk.py.
use Prim.Native.String.{◌++◌}
use owen_main.Common.{
  ℕ, ◌≤◌, String, List, [], ◌∷◌, ◌≡◌, refl, sym, ap, inl, inr, Bool, true, false, not, Option, none,
  some, leb, contains, str_eq, eq_iff, length, Result, ok, raise, ok_inj, ◌>>=◌, Bool-cases, arith,
  if◌then◌else◌,
}
use owen_main.Common.Json.{Dict}
use owen_main.Services.Ingestion.{NormalizedCallEvent}
use owen_main.Providers.Asterisk.{Reader, is_entry_channel, is_flow_dial_leg, parse_status_event}

abbrev pub dedup_max : ℕ
dedup_max = 50000

-- `if key in seen` and what follows: the set is emptied when it is full.
unfoldable pub admit :
    String → NormalizedCallEvent → List String → Option NormalizedCallEvent × List String
unfolding contains
admit key evt seen =
    if contains key seen
    then (none, seen)
    else (some evt, key ∷ (if leb dedup_max (length seen) then [] else seen))

-- `evt.provider_sequence or f"{lid}:{status}"`
unfoldable pub key_for : NormalizedCallEvent → String → Option String → String
key_for evt status none = evt.call_sid ++ ":" ++ status
key_for evt status (some key) = if str_eq key "" then evt.call_sid ++ ":" ++ status else key

-- What `route` does with an event of the status `status` of the call.
unfoldable pub routed :
    Dict
    → NormalizedCallEvent
    → Option String
    → Option String
    → List String
    → Option NormalizedCallEvent × List String
unfolding admit key_for is_entry_channel is_flow_dial_leg
routed e evt (some status) sequence seen =
    if str_eq evt.call_sid ""
    then (none, seen)
    else if not (is_entry_channel e)
    then (none, seen)
    else if is_flow_dial_leg e
    then (none, seen)
    else admit (key_for evt status sequence) evt seen
routed e evt none sequence seen = (none, seen)

module _ (rd : Reader) where
  unfoldable pub route : Dict → List String → Result (Option NormalizedCallEvent × List String)
  unfolding parse_status_event routed
  route e seen = do
    evt ← parse_status_event rd e
    ok (routed e evt evt.event_status evt.sequence seen)

admit-known :
    (key : String) (ev : NormalizedCallEvent) (ks : List String)
    → admit key ev (key ∷ ks) ≡ (none, key ∷ ks)
unfolding admit contains
admit-known key ev ks = rw ((eq_iff key key).1 refl) refl

pub short :
    (key : String) (seen : List String)
    → length (key ∷ (if leb dedup_max (length seen) then [] else seen)) ≤ dedup_max
short key seen = elim (Bool-cases (leb dedup_max (length seen))) [
  | inl q ↦ rw q (omega arith)
  | inr q ↦ rw q (ground (arith, q))
]

admit-twice :
    (key : String) (evt ev : NormalizedCallEvent) (seen seen' : List String)
    → admit key ev seen ≡ (some evt, seen')
    → (admit key ev seen' ≡ (none, seen')) × (length seen' ≤ dedup_max)
unfolding admit
admit-twice key evt ev seen seen' h = elim (Bool-cases (contains key seen)) [
  | inl q ↦ cc (ap (λ x. x.0) (rw q at h))
  | inr q ↦
      rw (sym (ap (λ x. x.1) (rw q at h)))
        (admit-known key ev (if leb dedup_max (length seen) then [] else seen), short key seen)
]

routed-twice :
    (e : Dict) (evt ev : NormalizedCallEvent) (st sq : Option String) (seen seen' : List String)
    → routed e ev st sq seen ≡ (some evt, seen')
    → (routed e ev st sq seen' ≡ (none, seen')) × (length seen' ≤ dedup_max)
unfolding routed
routed-twice e evt ev none sq seen seen' h = cc (ap (λ x. x.0) h)
routed-twice e evt ev (some st) sq seen seen' h =
    go (str_eq ev.call_sid "") (not (is_entry_channel e)) (is_flow_dial_leg e) h
  where
    go :
        (a b c : Bool)
        → (if a
            then (none, seen)
            else if b
            then (none, seen)
            else if c
            then (none, seen)
            else admit (key_for ev st sq) ev seen)
          ≡ (some evt, seen')
        → ((if a
              then (none, seen')
              else if b
              then (none, seen')
              else if c
              then (none, seen')
              else admit (key_for ev st sq) ev seen')
            ≡ (none, seen'))
          × (length seen' ≤ dedup_max)
    go true b c h = cc (ap (λ x. x.0) h)
    go false true c h = cc (ap (λ x. x.0) h)
    go false false true h = cc (ap (λ x. x.0) h)
    go false false false h = admit-twice (key_for ev st sq) evt ev seen seen' h

-- After the router has passed an event on, the same event is not passed on again, and the set of what it has
-- seen stays within its bound.
pub route_once :
    (rd : Reader) (e : Dict) (evt : NormalizedCallEvent) (seen seen' : List String)
    → route rd e seen ≡ ok (some evt, seen')
    → (route rd e seen' ≡ ok (none, seen')) × (length seen' ≤ dedup_max)
unfolding route
route_once rd e evt seen seen' h = go (parse_status_event rd e) h
  where
    go :
        (r : Result NormalizedCallEvent)
        → (r >>= λ ev. ok (routed e ev ev.event_status ev.sequence seen)) ≡ ok (some evt, seen')
        → ((r >>= λ ev. ok (routed e ev ev.event_status ev.sequence seen')) ≡ ok (none, seen'))
          × (length seen' ≤ dedup_max)
    go (raise x) h = cc h
    go (ok ev) h =
        let k = routed-twice e evt ev ev.event_status ev.sequence seen seen' (ok_inj h) in
        (ap ok k.0, k.1)
