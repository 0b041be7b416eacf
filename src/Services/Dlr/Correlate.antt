-- ===== src/Services/Dlr/Correlate.antt =====
-- `correlate` and `apply` of backend/app/services/dlr.py.
use Prim.Native.String.{◌++◌}
use owen_main.Common.{
  ℕ, ◌+◌, ◌-◌, String, List, [], ◌∷◌, Bool, true, false, not, ◌&&◌, ◌||◌, Option, none, some, leb,
  contains, ◌==◌, str_eq, length, if◌then◌else◌,
}
use owen_main.Common.Chars.{strip, starts_with}
use owen_main.Services.Sms.{advance_status}
use owen_main.Services.Dlr.{
  Python, DeliveryReceipt, Message, window, fallback_window, or_blank, status_for, detail_for,
  key_of, submit_instant, echo_prefix,
}

-- The messages with the property, in their order.
unfoldable pub only : (Message → Bool) → List Message → List Message
only f [] = []
only f (m ∷ ms) = let rest = only f ms in if f m then m ∷ rest else rest

-- `ORDER BY received_at DESC`
unfoldable pub place : Message → List Message → List Message
place m [] = m ∷ []
place m (n ∷ ns) =
    let rest = place m ns in if leb n.received_at m.received_at then m ∷ n ∷ ns else n ∷ rest

unfoldable pub newest_first : List Message → List Message
unfolding place
newest_first [] = []
newest_first (m ∷ ms) = place m (newest_first ms)

-- `WHERE direction = 'outbound' AND received_at BETWEEN ...`
unfoldable pub in_window : Option ℕ → ℕ → Message → Bool
in_window none now m =
    m.outbound
    && (leb now (m.received_at + fallback_window) && leb m.received_at (now + fallback_window))
in_window (some at) now m =
    m.outbound && (leb at (m.received_at + window) && leb m.received_at (at + window))

distance : ℕ → ℕ → ℕ
distance a b = (a - b) + (b - a)

is_fresh : Message → Bool
is_fresh m = elim m.dlr_seen [ [] ↦ true | s ∷ ss ↦ false ]

as_near : Option ℕ → Message → Message → Bool
unfolding distance
as_near none m n = true
as_near (some at) m n = leb (distance m.received_at at) (distance n.received_at at)

-- At most as far, by `nearness`: first whether a receipt is there, then the distance in time.
unfoldable pub nearer : Option ℕ → Message → Message → Bool
unfolding is_fresh as_near
nearer submitted m n =
    if is_fresh m
    then (if is_fresh n then as_near submitted m n else true)
    else (if is_fresh n then false else as_near submitted m n)

-- `sorted(candidates, key=nearness)[0]`: the first of the nearest.
unfoldable pub nearest : Option ℕ → Message → List Message → Message
unfolding nearer
nearest submitted m [] = m
nearest submitted m (n ∷ ns) =
    let rest = nearest submitted n ns in if nearer submitted m rest then m else rest

unfoldable pub first_with : String → List Message → Option Message
unfolding contains
first_with marker [] = none
first_with marker (m ∷ ms) =
    let rest = first_with marker ms in if contains marker m.dlr_seen then some m else rest

-- `if marker not in seen: seen.append(marker)`
unfoldable pub append_new : String → List String → List String
append_new k [] = k ∷ []
append_new k (x ∷ xs) = let rest = append_new k xs in if str_eq x k then x ∷ xs else x ∷ rest

-- Why a receipt is placed where it is: no number, no message, a receipt that was placed before, or the
-- nearest of the messages, with or without an echo of the text.
pub data Correlation : Type 0 where
  no_numbers no_match : Correlation
  already_applied : Message → Correlation
  matched : Message → Bool → ℕ → Correlation

module _ (py : Python) where
  -- The marker of the receipt with its outcome.
  unfoldable pub marker_of : DeliveryReceipt → String
  marker_of r = r.receipt_id ++ ":" ++ py.upper r.stat

  unfoldable pub echoes : String → Message → Bool
  unfolding starts_with strip
  echoes prefix m = str_eq prefix "" || starts_with prefix (py.lower (strip (or_blank m.body)))

  unfoldable pub is_candidate : DeliveryReceipt → Message → Bool
  unfolding key_of echoes echo_prefix
  is_candidate r m =
      str_eq (key_of py (or_blank m.from_number)) (key_of py r.dialed_number)
      && (str_eq (key_of py (or_blank m.to_number)) (key_of py r.customer_number)
          && echoes (py.lower (echo_prefix py r)) m)

  unfoldable pub candidates : ℕ → DeliveryReceipt → List Message → List Message
  unfolding only is_candidate newest_first in_window submit_instant
  candidates now r ms =
      only (is_candidate r) (newest_first (only (in_window (submit_instant py r) now) ms))

  unfoldable pub among : DeliveryReceipt → List Message → Correlation
  unfolding first_with marker_of nearest submit_instant echo_prefix
  among r [] = no_match
  among r (m ∷ ms) = elim (first_with (marker_of r) (m ∷ ms)) [
    | some seen ↦ already_applied seen
    | none ↦
        matched (nearest (submit_instant py r) m ms) (not (str_eq (py.lower (echo_prefix py r)) ""))
          (length (m ∷ ms))
  ]

  unfoldable pub correlate : ℕ → DeliveryReceipt → List Message → Correlation
  unfolding key_of among candidates
  correlate now r ms =
      if str_eq (key_of py r.dialed_number) "" || str_eq (key_of py r.customer_number) ""
      then no_numbers
      else among r (candidates now r ms)

  -- `remember`, beside the status that is advanced.
  unfoldable pub receipted : DeliveryReceipt → Message → Message
  unfolding advance_status status_for marker_of append_new
  receipted r m = record m {
    message_status = advance_status py.lower m.message_status (some (status_for py r));
    dlr_seen = append_new (marker_of r) m.dlr_seen;
    dlr_last = some r;
  }

unfoldable pub change_message : (Message → Message) → ℕ → List Message → List Message
change_message f id [] = []
change_message f id (m ∷ ms) =
    let rest = change_message f id ms in if m.message_id == id then f m ∷ rest else m ∷ rest

-- What `apply` returns: the reason, and where it was applied the message with what is relayed.
pub data Placed : Type 0 where
  unplaced : Correlation → Placed
  unchanged : ℕ → Option String → Placed
  applied : ℕ → String → String → Placed

module _ (py : Python) where
  unfoldable pub apply : ℕ → DeliveryReceipt → List Message → Placed × List Message
  unfolding correlate receipted change_message status_for detail_for
  apply now r ms = elim (correlate py now r ms) [
    | already_applied m ↦ (unchanged m.message_id m.message_status, ms)
    | matched m echoed n ↦ (
      applied m.message_id (status_for py r) (detail_for py r),
      change_message (receipted py r) m.message_id ms,
    )
    | no_numbers ↦ (unplaced no_numbers, ms)
    | no_match ↦ (unplaced no_match, ms)
  ]
