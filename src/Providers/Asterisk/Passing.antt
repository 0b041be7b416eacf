-- ===== src/Providers/Asterisk/Passing.antt =====
-- What the router passes on: a status of a call, once.
use mathlib.Core.Path.{subst}
use mathlib.Core.Option.{some-injective}
use Prim.Native.String.{◌++◌}
use owen_main.Common.{
  ◌≤◌, String, List, [], ◌∷◌, ◌≡◌, refl, sym, ap, ◌∙◌, inl, inr, Bool, true, false, not, Option,
  none, some, In, contains, leb, length, str_eq, eq_iff, ok, ok_inj, bind-ok_inv, ◌>>=◌, Bool-cases,
  arith, if◌then◌else◌,
}
use owen_main.Common.Json.{Dict, get}
use owen_main.Services.Ingestion.{NormalizedCallEvent}
use owen_main.Providers.Asterisk.{
  Reader, linkedid, status_for, direction, member, or_value, channelvar, channel, normalized,
  call_event, parse_status_event, is_entry_channel, is_flow_dial_leg,
}
use owen_main.Providers.Asterisk.Router.{dedup_max, admit, key_for, routed, route, short}

-- The key of an event is made of its call and its status.
abbrev Keyed : NormalizedCallEvent → Type 0
Keyed evt =
    (s : String) → evt.event_status ≡ some s → evt.sequence ≡ some (evt.call_sid ++ ":" ++ s)

parse_status_event-Keyed :
    (rd : Reader) (e : Dict) (evt : NormalizedCallEvent)
    → parse_status_event rd e ≡ ok evt
    → Keyed evt
unfolding parse_status_event call_event
parse_status_event-Keyed rd e evt h =
    let (status, _, h₁) = bind-ok_inv (status_for rd e) _ evt h in
    let (exten, _, h₂) = bind-ok_inv (member (get "dialplan" (channel e)) "exten") _ evt h₁ in
    let (caller, _, h₃) = bind-ok_inv (member (get "caller" (channel e)) "number") _ evt h₂ in
    let outbound = str_eq (direction rd e) "outbound" in
    let (from, _, h₄) =
      bind-ok_inv
        (normalized rd (if outbound then or_value (channelvar e "X_OWEN_FROM") caller else caller))
        _ evt h₃ in
    let (to, _, h₅) =
      bind-ok_inv
        (normalized rd (if outbound then or_value (channelvar e "X_OWEN_TO") caller else exten)) _
        evt h₄ in
    subst (λ v. Keyed v) (ok_inj h₅) (keyed status from to)
  where
    keyed : (status from to : Option String) → Keyed (call_event rd e status from to)
    keyed none from to s q = cc q
    keyed (some t) from to s q = ap (λ o. some (linkedid e ++ ":" ++ o)) (some-injective _ _ q)

-- So is what the router looks up.
key_for_lem :
    (evt : NormalizedCallEvent) (s : String)
    → Keyed evt
    → evt.event_status ≡ some s
    → key_for evt s evt.sequence ≡ evt.call_sid ++ ":" ++ s
unfolding key_for
key_for_lem evt s k q = ap (key_for evt s) (k s q) ∙ same (str_eq (evt.call_sid ++ ":" ++ s) "")
  where
    same :
        (b : Bool)
        → (if b then evt.call_sid ++ ":" ++ s else evt.call_sid ++ ":" ++ s)
          ≡ evt.call_sid ++ ":" ++ s
    same true = refl
    same false = refl

-- What is passed on is the event, and its key is then in the set.
abbrev Passed : NormalizedCallEvent → NormalizedCallEvent → Option String → List String → Type 0
Passed evt ev status seen =
    (evt ≡ ev)
    × ((s : String) × (status ≡ some s) × In (key_for ev s ev.sequence) seen)
    × (length seen ≤ dedup_max)

admit-Passed :
    (s : String) (evt ev : NormalizedCallEvent) (seen seen' : List String)
    → admit (key_for ev s ev.sequence) ev seen ≡ (some evt, seen')
    → Passed evt ev (some s) seen'
unfolding admit contains
admit-Passed s evt ev seen seen' h = elim (Bool-cases (contains key seen)) [
  | inl q ↦ cc (ap (λ x. x.0) (rw q at h))
  | inr q ↦
      let h' = rw q at h in
      (
        sym (some-injective _ _ (ap (λ x. x.0) h')),
        (s, refl, rw (sym (ap (λ x. x.1) h')) here),
        rw (sym (ap (λ x. x.1) h')) (short key seen),
      )
]
  where
    key : String
    key = key_for ev s ev.sequence

    here : In key (key ∷ (if leb dedup_max (length seen) then [] else seen))
    here = ground (arith, eq_iff key key)

routed-Passed :
    (e : Dict) (evt ev : NormalizedCallEvent) (status : Option String) (seen seen' : List String)
    → routed e ev status ev.sequence seen ≡ (some evt, seen')
    → Passed evt ev status seen'
unfolding routed
routed-Passed e evt ev none seen seen' h = cc (ap (λ x. x.0) h)
routed-Passed e evt ev (some st) seen seen' h =
    go (str_eq ev.call_sid "") (not (is_entry_channel e)) (is_flow_dial_leg e) h
  where
    go :
        (a b c : Bool)
        → (if a
            then (none, seen)
            else if b
            then (none, seen)
            else if c
            then (none, seen)
            else admit (key_for ev st ev.sequence) ev seen)
          ≡ (some evt, seen')
        → Passed evt ev (some st) seen'
    go true b c h = cc (ap (λ x. x.0) h)
    go false true c h = cc (ap (λ x. x.0) h)
    go false false true h = cc (ap (λ x. x.0) h)
    go false false false h = admit-Passed st evt ev seen seen' h

-- An event whose key is in the set is not passed on.
routed-known :
    (e : Dict) (ev : NormalizedCallEvent) (status : Option String) (s : String) (seen : List String)
    → status ≡ some s
    → In (key_for ev s ev.sequence) seen
    → routed e ev status ev.sequence seen ≡ (none, seen)
unfolding routed admit
routed-known e ev none s seen q i = refl
routed-known e ev (some st) s seen q i =
    go (str_eq ev.call_sid "") (not (is_entry_channel e)) (is_flow_dial_leg e)
      (contains (key_for ev st ev.sequence) seen)
      (ap (λ t. contains (key_for ev t ev.sequence) seen) (some-injective _ _ q) ∙ i)
  where
    go :
        (a b c d : Bool)
        → d ≡ true
        → ◌≡◌ {A = Option NormalizedCallEvent × List String}
            (if a
              then (none, seen)
              else if b
              then (none, seen)
              else if c
              then (none, seen)
              else if d
              then (none, seen)
              else (
                some ev,
                key_for ev st ev.sequence ∷ (if leb dedup_max (length seen) then [] else seen),
              ))
            (none, seen)
    go true b c d p = refl
    go false true c d p = refl
    go false false true d p = refl
    go false false false true p = refl
    go false false false false p = cc p

-- After the router has passed on an event, no event of the same call and status is passed on, whatever else it
-- says, from the set that it leaves or a set with all of that; and that set stays within its bound.
pub route_once_per_status :
    (rd : Reader) (e e' : Dict) (evt evt' : NormalizedCallEvent) (seen seen' later : List String)
    → route rd e seen ≡ ok (some evt, seen')
    → ((k : String) → In k seen' → In k later)
    → parse_status_event rd e' ≡ ok evt'
    → evt'.call_sid ≡ evt.call_sid
    → evt'.event_status ≡ evt.event_status
    → (route rd e' later ≡ ok (none, later)) × (length seen' ≤ dedup_max)
unfolding route
route_once_per_status rd e e' evt evt' seen seen' later h more p sid status =
    let (ev, q, r) = bind-ok_inv (parse_status_event rd e) _ (some evt, seen') h in
    let (same, (s, t, i), bound) = routed-Passed e evt ev ev.event_status seen seen' (ok_inj r) in
    let t' = status ∙ ap (λ v. v.event_status) same ∙ t in
    let key =
      key_for_lem evt' s (parse_status_event-Keyed rd e' evt' p) t'
      ∙ ap (λ n. n ++ ":" ++ s) (sid ∙ ap (λ v. v.call_sid) same)
      ∙ sym (key_for_lem ev s (parse_status_event-Keyed rd e ev q) t) in
    (
      ap (λ m. m >>= λ v. ok (routed e' v v.event_status v.sequence later)) p
          ∙ ap ok (
              routed-known e' evt' evt'.event_status s later t'
                (ap (λ k. contains k later) key ∙ more _ i)),
      bound,
    )
