-- ===== src/Services/Dlr/Examples.antt =====
-- A receipt for the one message that was sent to the number.
use owen_main.Common.{[], ◌∷◌, ◌≡◌, refl, true, none, some, leb, ◌&&◌}
use Prim.Native.Char.{code}
use owen_main.Services.Dlr.{Python, DeliveryReceipt, Message, submit_instant}
use owen_main.Services.Dlr.Correlate.{apply}
use owen_main.Services.Dlr.Again.{apply_again}

abbrev plain : Python
plain = record {
  lower = λ t. t;
  upper = λ t. t;
  is_digit = λ c. leb 48 (code c) && leb (code c) 57;
  to_second = λ t. some 1000;
  to_minute = λ t. none;
}

abbrev delivered : DeliveryReceipt
delivered = record {
  receipt_id = "1162999967";
  stat = "DELIVRD";
  err = "000";
  submit_date = "260908164500";
  done_date = "260908164512";
  text_prefix = "";
  customer_number = "15550100200";
  dialed_number = "15550199300";
}

abbrev sent : Message
sent = record {
  message_id = 4;
  outbound = true;
  from_number = some "+15550199300";
  to_number = some "+15550100200";
  body = some "on my way";
  message_status = some "sent";
  received_at = 990;
  dlr_seen = [];
  dlr_last = none;
}

apply_again_example :
    let ms = (apply plain 2000 delivered (sent ∷ [])).1 in (apply plain 9000 delivered ms).1 ≡ ms
unfolding submit_instant
apply_again_example = apply_again plain 2000 9000 1000 delivered (sent ∷ []) refl
