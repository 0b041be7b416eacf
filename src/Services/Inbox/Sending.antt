-- ===== src/Services/Inbox/Sending.antt =====
-- The order of the threads, and the numbers that messages go out from.
use owen_main.Common.{
  ℕ, ◌+◌, ◌≡◌, refl, sym, ap, ◌∙◌, inl, inr, String, List, [], ◌∷◌, Bool, true, false, ◌&&◌, not,
  Option, none, some, is_some, All, All-imp, length, Bool-cases, arith, if◌then◌else◌,
}
use owen_main.Services.Sms.{BlockReason, outbound_block_reason}
use owen_main.Services.Inbox.{
  DidRef, ContactThread, Row, ThreadStates, newer, merged, place, newest_first, merge_threads,
}
use owen_main.Services.Inbox.From.{has_number, NoSms, passes, refusal, resolve_sms_from}

-- No thread of the list has a newer activity than one before it; a thread without any stands last.
abbrev pub NewestFirst : List ContactThread → Type 0
NewestFirst [] = Unit
NewestFirst (t ∷ ts) = All (λ u. newer u.last_at t.last_at ≡ false) ts × NewestFirst ts

newer_asym : (a b : Option ℕ) → newer a b ≡ true → newer b a ≡ false
unfolding newer
newer_asym none b h = cc h
newer_asym (some a) none h = refl
newer_asym (some a) (some b) h = ground (arith, h)

not_newer_trans : (a b c : Option ℕ) → newer a b ≡ false → newer b c ≡ false → newer a c ≡ false
unfolding newer
not_newer_trans none b c h k = refl
not_newer_trans (some a) none c h k = cc h
not_newer_trans (some a) (some b) none h k = cc k
not_newer_trans (some a) (some b) (some c) h k = ground (arith, h, k)

All-place :
    (P : ContactThread → Type 0) (t : ContactThread) (us : List ContactThread)
    → P t
    → All P us
    → All P (place t us)
unfolding place
All-place P t [] p h = (p, tt)
All-place P t (u ∷ us) p h = elim (Bool-cases (newer u.last_at t.last_at)) [
  | inl q ↦ rw (q, place) (h.0, All-place P t us p h.1)
  | inr q ↦ rw (q, place) (p, (h.0, h.1))
]

place-NewestFirst :
    (t : ContactThread) (us : List ContactThread) → NewestFirst us → NewestFirst (place t us)
unfolding place
place-NewestFirst t [] h = (tt, tt)
place-NewestFirst t (u ∷ us) h = elim (Bool-cases (newer u.last_at t.last_at)) [
  | inl q ↦
      rw (q, place)
        (
          All-place (λ x. newer x.last_at u.last_at ≡ false) t us (newer_asym u.last_at t.last_at q)
              h.0,
          place-NewestFirst t us h.1,
        )
  | inr q ↦
      rw (q, place)
        ((q, All-imp (λ x r. not_newer_trans x.last_at u.last_at t.last_at r q) us h.0), (h.0, h.1))
]

newest_first-NewestFirst : (ts : List (String × ContactThread)) → NewestFirst (newest_first ts)
unfolding newest_first
newest_first-NewestFirst [] = tt
newest_first-NewestFirst ((cid, t) ∷ ts) =
    place-NewestFirst t (newest_first ts) (newest_first-NewestFirst ts)

length-place : (t : ContactThread) (us : List ContactThread) → length (place t us) ≡ length us + 1
unfolding place
length-place t [] = omega arith
length-place t (u ∷ us) = elim (Bool-cases (newer u.last_at t.last_at)) [
  | inl q ↦ rw (q, place) (omega (arith, length-place t us))
  | inr q ↦ rw (q, place) (omega arith)
]

length-newest_first : (ts : List (String × ContactThread)) → length (newest_first ts) ≡ length ts
unfolding newest_first
length-newest_first [] = refl
length-newest_first ((cid, t) ∷ ts) =
    omega (arith, length-place t (newest_first ts), length-newest_first ts)

-- The threads come with the newest activity first, and there are as many as contacts.
pub merge_threads_sorted :
    (lower : String → String) (states : ThreadStates) (message_rows call_rows : List Row)
    → NewestFirst (merge_threads lower states message_rows call_rows)
      × (length (merge_threads lower states message_rows call_rows)
          ≡ length (merged lower states message_rows call_rows))
unfolding merge_threads
merge_threads_sorted lower states message_rows call_rows =
    let ts = merged lower states message_rows call_rows in
    (newest_first-NewestFirst ts, length-newest_first ts)

-- A number of ours that the gate of text messages lets through.
abbrev pub IsGated : DidRef → Type 0
IsGated d =
    (has_number (some d) ≡ true) × (outbound_block_reason d.sms_enabled d.sms_campaign_id ≡ none)

passes-IsGated : (d : DidRef) → passes (some d) ≡ true → IsGated d
unfolding passes
passes-IsGated d h =
    both (has_number (some d)) (outbound_block_reason d.sms_enabled d.sms_campaign_id) h
  where
    both :
        (b : Bool) (o : Option BlockReason)
        → (b && not (is_some o)) ≡ true
        → (b ≡ true) × (o ≡ none)
    both true none e = (refl, refl)
    both true (some r) e = cc e
    both false o e = cc e

-- An SMS goes out only from a number of ours that the gate of text messages lets through, and then without a
-- reason against it.
pub resolve_sms_from-IsGated :
    (sticky default : Option DidRef) (d : DidRef) (fallback : Bool) (reason : Option NoSms)
    → resolve_sms_from sticky default ≡ (some d, fallback, reason)
    → IsGated d × (reason ≡ none)
unfolding resolve_sms_from
resolve_sms_from-IsGated sticky default d fallback reason h =
    go (passes sticky) (passes default) refl refl h
  where
    go :
        (b c : Bool)
        → passes sticky ≡ b
        → passes default ≡ c
        → ◌≡◌ {A = Option DidRef × Bool × Option NoSms}
            (if b
              then (sticky, false, none)
              else if c
              then (default, true, none)
              else (none, false, some (refusal sticky)))
            (some d, fallback, reason)
        → IsGated d × (reason ≡ none)
    go true c p q e =
        (passes-IsGated d (ap (λ o. passes o) (sym (ap (λ x. x.0) e)) ∙ p), sym (ap (λ x. x.2) e))
    go false true p q e =
        (passes-IsGated d (ap (λ o. passes o) (sym (ap (λ x. x.0) e)) ∙ q), sym (ap (λ x. x.2) e))
    go false false p q e = cc (ap (λ x. x.0) e)
