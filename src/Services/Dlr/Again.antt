-- ===== src/Services/Dlr/Again.antt =====
-- A receipt that is delivered again changes nothing.
use owen_main.Common.{
  ℕ, List, [], ◌∷◌, length, ◌≡◌, refl, sym, ap, ◌∙◌, inl, inr, Bool, true, not, ◌&&◌, ◌||◌, Option,
  none, some, contains, ◌==◌, str_eq, Bool-cases,
}
use owen_main.Services.Dlr.{
  Python, DeliveryReceipt, Message, key_of, submit_instant, status_for, detail_for, echo_prefix,
}
use owen_main.Services.Dlr.Correlate.{
  only, newest_first, in_window, nearest, first_with, Correlation, no_numbers, no_match,
  already_applied, matched, marker_of, echoes, is_candidate, candidates, among, correlate,
  receipted, change_message, Placed, unplaced, unchanged, applied, apply,
}
use owen_main.Services.Dlr.Lists.{
  any, any-same, and_assoc, any-only, any-newest_first, any-nearest, any-change,
  contains-append_new, message_inj, same_number,
}

module _ (py : Python) where
  -- The message is one that the receipt may be about.
  eligible : ℕ → DeliveryReceipt → Message → Bool
  eligible now r m = in_window (submit_instant py r) now m && is_candidate py r m

  any-candidates :
      (f : Message → Bool) (now : ℕ) (r : DeliveryReceipt) (ms : List Message)
      → any f (candidates py now r ms) ≡ any (λ m. eligible now r m && f m) ms
  unfolding candidates eligible
  any-candidates f now r ms =
      any-only f (is_candidate py r) (newest_first (only (in_window (submit_instant py r) now) ms))
      ∙ any-newest_first _ (only (in_window (submit_instant py r) now) ms)
      ∙ any-only _ (in_window (submit_instant py r) now) ms
      ∙ any-same _ _ ms
          (λ m. and_assoc (in_window (submit_instant py r) now m) (is_candidate py r m) (f m))

  eligible-receipted :
      (now : ℕ) (r s : DeliveryReceipt) (m : Message)
      → eligible now r (receipted py s m) ≡ eligible now r m
  unfolding eligible in_window is_candidate receipted echoes
  eligible-receipted now r s m = go (submit_instant py r)
    where
      go :
          (o : Option ℕ)
          → (in_window o now (receipted py s m) && is_candidate py r (receipted py s m))
            ≡ (in_window o now m && is_candidate py r m)
      go none = refl
      go (some at) = refl

  marked : DeliveryReceipt → Message → Bool
  marked r m = contains (marker_of py r) m.dlr_seen

  marked-receipted : (r : DeliveryReceipt) (m : Message) → marked r (receipted py r m) ≡ true
  unfolding marked receipted
  marked-receipted r m = contains-append_new (marker_of py r) m.dlr_seen

  first-marked :
      (r : DeliveryReceipt) (l : List Message)
      → any (marked r) l ≡ true
      → (m : Message) × (first_with (marker_of py r) l ≡ some m)
  unfolding first_with marked
  first-marked r [] h = cc h
  first-marked r (m ∷ ms) h = elim (Bool-cases (contains (marker_of py r) m.dlr_seen)) [
    | inl q ↦ (m, rw q refl)
    | inr q ↦ rw q (first-marked r ms (rw q at h))
  ]

  among-marked :
      (r : DeliveryReceipt) (l : List Message)
      → any (marked r) l ≡ true
      → (m : Message) × (among py r l ≡ already_applied m)
  unfolding among
  among-marked r [] h = cc h
  among-marked r (m ∷ ms) h = let k = first-marked r (m ∷ ms) h in (k.0, rw (among, k.1) refl)

  -- Where no message is matched, nothing is written.
  abbrev Idle : Correlation → Type 0
  Idle (matched m b n) = ⊥
  Idle _ = Unit

  idle :
      (now : ℕ) (r : DeliveryReceipt) (ms : List Message)
      → Idle (correlate py now r ms)
      → (apply py now r ms).1 ≡ ms
  unfolding apply
  idle now r ms h = go (correlate py now r ms) h
    where
      go :
          (c : Correlation)
          → Idle c
          → (elim c as (λ _. Placed × List Message) [
            | already_applied m ↦ (unchanged m.message_id m.message_status, ms)
            | matched m echoed n ↦ (
              applied m.message_id (status_for py r) (detail_for py r),
              change_message (receipted py r) m.message_id ms,
            )
            | no_numbers ↦ (unplaced no_numbers, ms)
            | no_match ↦ (unplaced no_match, ms)
          ]).1
            ≡ ms
      go (already_applied m) h = refl
      go (matched m b n) h = absurd h
      go no_numbers h = refl
      go no_match h = refl

  already :
      (now : ℕ) (r : DeliveryReceipt) (ms : List Message)
      → any (marked r) (candidates py now r ms) ≡ true
      → Idle (correlate py now r ms)
  unfolding correlate
  already now r ms h =
      elim (Bool-cases
        (str_eq (key_of py r.dialed_number) "" || str_eq (key_of py r.customer_number) "")) [
          | inl q ↦ rw q tt
          | inr q ↦ rw (q, (among-marked r (candidates py now r ms) h).1) tt
        ]

  matched-among :
      (r : DeliveryReceipt) (l : List Message) (m : Message) (b : Bool) (n : ℕ)
      → among py r l ≡ matched m b n
      → any (λ x. x.message_id == m.message_id) l ≡ true
  unfolding among
  matched-among r [] m b n h = cc h
  matched-among r (c ∷ cs) m b n h = go (first_with (marker_of py r) (c ∷ cs)) h
    where
      go :
          (o : Option Message)
          → elim o as (λ _. Correlation) [
            | some seen ↦ already_applied seen
            | none ↦
                matched
                  (nearest (submit_instant py r) c cs)
                  (not (str_eq (py.lower (echo_prefix py r)) ""))
                  (length (c ∷ cs))
          ]
            ≡ matched m b n
          → any (λ x. x.message_id == m.message_id) (c ∷ cs) ≡ true
      go (some seen) h = cc h
      go none h =
          any-nearest (λ x. x.message_id == m.message_id) (submit_instant py r) c cs
            (ap (λ x. x.message_id == m.message_id) (message_inj h) ∙ same_number m.message_id)

  matched-candidates :
      (now : ℕ) (r : DeliveryReceipt) (ms : List Message) (m : Message) (b : Bool) (n : ℕ)
      → correlate py now r ms ≡ matched m b n
      → any (λ x. x.message_id == m.message_id) (candidates py now r ms) ≡ true
  unfolding correlate
  matched-candidates now r ms m b n h =
      elim (Bool-cases
        (str_eq (key_of py r.dialed_number) "" || str_eq (key_of py r.customer_number) "")) [
          | inl q ↦ cc (rw q at h)
          | inr q ↦ matched-among r (candidates py now r ms) m b n (rw q at h)
        ]

  -- With a submit time the clock plays no part.
  timeless :
      (now now' at : ℕ) (r : DeliveryReceipt) (ms : List Message)
      → submit_instant py r ≡ some at
      → correlate py now' r ms ≡ correlate py now r ms
  unfolding correlate candidates in_window
  timeless now now' at r ms h = rw h refl

  changed :
      (now : ℕ) (r : DeliveryReceipt) (ms : List Message) (m : Message) (b : Bool) (n : ℕ)
      → correlate py now r ms ≡ matched m b n
      → any (marked r) (candidates py now r (change_message (receipted py r) m.message_id ms))
        ≡ true
  changed now r ms m b n h =
      any-candidates (marked r) now r _
      ∙ any-change (marked r) (eligible now r) (receipted py r) m.message_id ms
          (eligible-receipted now r r) (marked-receipted r)
          (sym (any-candidates (λ x. x.message_id == m.message_id) now r ms)
            ∙ matched-candidates now r ms m b n h)

  writes :
      (now : ℕ) (r : DeliveryReceipt) (ms : List Message) (m : Message) (b : Bool) (n : ℕ)
      → correlate py now r ms ≡ matched m b n
      → (apply py now r ms).1 ≡ change_message (receipted py r) m.message_id ms
  unfolding apply
  writes now r ms m b n e = rw (apply, e) refl

  -- A receipt that is delivered again, at whatever time, writes nothing: it finds the message that it was
  -- placed on, or is placed nowhere as before. The receipt says when the message was submitted.
  pub apply_again :
      (now now' at : ℕ) (r : DeliveryReceipt) (ms : List Message)
      → submit_instant py r ≡ some at
      → let ms' = (apply py now r ms).1 in (apply py now' r ms').1 ≡ ms'
  apply_again now now' at r ms h = go (correlate py now r ms) refl
    where
      resting :
          Idle (correlate py now r ms)
          → (apply py now' r (apply py now r ms).1).1 ≡ (apply py now r ms).1
      resting k = rw (idle now r ms k) (idle now' r ms (rw (timeless now now' at r ms h) k))

      go :
          (c : Correlation)
          → correlate py now r ms ≡ c
          → (apply py now' r (apply py now r ms).1).1 ≡ (apply py now r ms).1
      go (already_applied m) e = resting (rw e tt)
      go (matched m b n) e =
          let ms' = change_message (receipted py r) m.message_id ms in
          rw (writes now r ms m b n e) (
            idle now' r ms'
              (rw (timeless now now' at r ms' h) (already now r ms' (changed now r ms m b n e))))
      go no_numbers e = resting (rw e tt)
      go no_match e = resting (rw e tt)
