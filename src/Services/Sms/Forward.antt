-- ===== src/Services/Sms/Forward.antt =====
-- The delivery status only moves forward.
use owen_main.Common.{
  ℕ, ◌≤◌, String, List, [], ◌∷◌, ◌≡◌, refl, ap, inl, inr, Option, none, some, ltb, ltb→lt,
  Bool-cases, arith,
}
use owen_main.Services.Sms.{outbound_status_rank, lowered, advance_status}

-- The rank of a status as a row holds it.
abbrev pub rank_of : (String → String) → Option String → ℕ
rank_of lower status = outbound_status_rank (lowered lower status)

rank_le_3 : (s : String) → outbound_status_rank s ≤ 3
unfolding outbound_status_rank
rank_le_3 s = ground arith

-- The status after a sequence of updates.
unfoldable pub advance_all :
    (String → String) → Option String → List (Option String) → Option String
unfolding advance_status
advance_all lower current [] = current
advance_all lower current (n ∷ ns) = advance_all lower (advance_status lower current n) ns

lowered_twice :
    (lower : String → String)
    → ((s : String) → lower (lower s) ≡ lower s)
    → (o : Option String) → lowered lower (some (lowered lower o)) ≡ lowered lower o
unfolding lowered
lowered_twice lower idem none = idem ""
lowered_twice lower idem (some s) = idem s

advance_stays :
    (lower : String → String) (current new : Option String)
    → rank_of lower current ≡ 3
    → advance_status lower current new ≡ current
unfolding advance_status
advance_stays lower current new h = ground (arith, rank_le_3 (lowered lower new))

-- Where lowering a text twice is lowering it once, no update lowers the rank of the status.
pub advance_status_forward :
    (lower : String → String) (idem : (s : String) → lower (lower s) ≡ lower s)
    (current new : Option String)
    → rank_of lower current ≤ rank_of lower (advance_status lower current new)
unfolding advance_status
advance_status_forward lower idem current new =
    elim (Bool-cases (ltb (rank_of lower current) (rank_of lower new))) [
      | inl q ↦
          rw q (omega (arith, ltb→lt _ _ q, ap outbound_status_rank (lowered_twice lower idem new)))
      | inr q ↦ rw q (omega arith)
    ]

-- A status of the highest rank (delivered, undelivered, failed or blocked) is never changed again,
-- whatever updates arrive in whatever order.
pub advance_all_terminal :
    (lower : String → String) (current : Option String) (news : List (Option String))
    → rank_of lower current ≡ 3
    → advance_all lower current news ≡ current
unfolding advance_all
advance_all_terminal lower current [] h = refl
advance_all_terminal lower current (n ∷ ns) h =
    rw (advance_stays lower current n h) (advance_all_terminal lower current ns h)
