-- ===== src/Services/Inbox/Examples.antt =====
-- A contact who was closed at 20 calls at 30, and is answered.
use owen_main.Common.{◌≡◌, refl, inl, inr, String, [], ◌∷◌, true, false, none, some, arith}
use owen_main.Common.Assoc.{lookup}
use owen_main.Services.Inbox.{DidRef, ContactThread, Row, ThreadStates, state_of, is_unread, merged}
use owen_main.Services.Inbox.Counts.{merged_counts}
use owen_main.Services.Inbox.Reopening.{merged_reopens}

abbrev same : String → String
same s = s

abbrev office : DidRef
office = record {
  number_id = some "n1";
  phone_number = some "+1";
  sms_enabled = true;
  sms_campaign_id = some "c";
  friendly_name = none;
}

abbrev texted : Row
texted = record {
  caller = some "a";
  number = some "+2";
  way = some "inbound";
  text = some "hi";
  at = some 10;
  did = office;
}

abbrev called : Row
called = record {
  caller = some "a";
  number = some "+2";
  way = some "inbound";
  text = some "busy";
  at = some 30;
  did = office;
}

abbrev marks : ThreadStates
marks =
    (
      "a",
      record {
        last_read_at = some 10;
        closed_at = some 20;
        blocked_at = none;
        deleted_at = some 20;
      },
    )
    ∷ []

abbrev thread : ContactThread
thread = record {
  caller_id = "a";
  caller_number = some "+2";
  last_at = some 30;
  last_kind = some "call";
  last_direction = some "inbound";
  last_preview = some "↙ Missed call";
  message_count = 1;
  call_count = 1;
  unread_count = 1;
  open_now = true;
  responded = false;
  blocked = false;
  deleted = false;
  sticky = office;
}

the_thread : lookup "a" (merged same marks (texted ∷ []) (called ∷ [])) ≡ some thread
unfolding merged lookup
the_thread = refl

merged_counts_example :
    (thread.message_count ≡ 1) × (thread.call_count ≡ 1) × (thread.unread_count ≡ 1)
unfolding is_unread
merged_counts_example = merged_counts same marks (texted ∷ []) (called ∷ []) "a" thread the_thread

merged_reopens_example :
    ((state_of marks "a").closed_at ≡ some 20 → thread.open_now ≡ true)
    × ((state_of marks "a").deleted_at ≡ some 20 → thread.deleted ≡ false)
    × (thread.blocked ≡ false)
unfolding state_of lookup
merged_reopens_example =
    merged_reopens same marks (texted ∷ []) (called ∷ []) "a" thread 30 20 the_thread
      (inr (inl (refl, refl))) (omega arith)
