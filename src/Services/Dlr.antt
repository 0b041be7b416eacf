-- ===== src/Services/Dlr.antt =====
-- backend/app/services/dlr.py: a delivery receipt of the carrier is placed on the message that it is
-- about. A message is known by a number, times are numbers of seconds; of the raw payload, the list of
-- receipts seen and the last one are kept. The relay to the CRM is what the outcome carries.
pub mod Correlate
pub mod Lists
pub mod Again
mod Examples
use Prim.Native.Char.{Char, code}
use Prim.Native.String.{◌++◌}
use owen_main.Common.{
  ℕ, suc, ◌+◌, ◌-◌, String, List, [], ◌∷◌, Bool, true, false, not, ◌&&◌, ◌||◌, Option, none, some,
  leb, ltb, contains, ◌==◌, str_eq, length, if◌then◌else◌,
}
use owen_main.Common.Assoc.{lookup}
use owen_main.Common.Chars.{codes, text_of, strip, starts_with}
use owen_main.Services.Sms.{advance_status}
use mathlib.Core.List.{reverse}

-- The parts of Python: `str.lower`, `str.upper`, `str.isdigit` of a character, `strptime` of a text in
-- the format with seconds and in that without.
pub record Python : Type 0 where
  pub lower : String → String
  pub upper : String → String
  pub is_digit : Char → Bool
  pub to_second : String → Option ℕ
  pub to_minute : String → Option ℕ

pub record DeliveryReceipt : Type 0 where
  pub receipt_id : String
  pub stat : String
  pub err : String
  pub submit_date : String
  pub done_date : String
  pub text_prefix : String
  pub customer_number : String
  pub dialed_number : String

pub record Message : Type 0 where
  pub message_id : ℕ
  pub outbound : Bool
  pub from_number : Option String
  pub to_number : Option String
  pub body : Option String
  pub message_status : Option String
  pub received_at : ℕ
  pub dlr_seen : List String
  pub dlr_last : Option DeliveryReceipt

abbrev pub window : ℕ
window = 172800

abbrev pub fallback_window : ℕ
fallback_window = 604800

abbrev pub stat_to_status : List (String × String)
stat_to_status =
    ("DELIVRD", "delivered")
    ∷ ("ACCEPTD", "sent")
    ∷ ("UNDELIV", "undelivered")
    ∷ ("REJECTD", "failed")
    ∷ ("EXPIRED", "failed")
    ∷ ("DELETED", "failed")
    ∷ ("UNKNOWN", "failed")
    ∷ []

abbrev pub stat_sentence : List (String × String)
stat_sentence =
    ("UNDELIV", "the carrier could not deliver it")
    ∷ ("REJECTD", "the carrier rejected it")
    ∷ ("EXPIRED", "the carrier gave up trying to deliver it")
    ∷ ("DELETED", "the carrier deleted it before delivering it")
    ∷ ("UNKNOWN", "the carrier does not know what happened to it")
    ∷ []

text_or : String → Option String → String
text_or d none = d
text_or d (some s) = s

-- `x or ""`
abbrev pub or_blank : Option String → String
or_blank none = ""
or_blank (some s) = s

drop_zeros : List Char → List Char
drop_zeros [] = []
drop_zeros (c ∷ cs) = if code c == 48 then drop_zeros cs else c ∷ cs

drop_dots : List Char → List Char
drop_dots [] = []
drop_dots (c ∷ cs) = if code c == 46 then drop_dots cs else c ∷ cs

drop_first : ℕ → List Char → List Char
drop_first n [] = []
drop_first n (c ∷ cs) = let rest = drop_first (n - 1) cs in if n == 0 then c ∷ cs else rest

module _ (py : Python) where
  unfoldable pub status_for : DeliveryReceipt → String
  unfolding lookup text_or
  status_for r = text_or "failed" (lookup (py.upper r.stat) stat_to_status)

  with_error : String → String → String
  unfolding drop_zeros
  with_error sentence err =
      if str_eq err "" || str_eq (text_of (drop_zeros (codes err))) ""
      then sentence
      else sentence ++ " (error " ++ text_of (drop_zeros (codes err)) ++ ")"

  unfoldable pub detail_for : DeliveryReceipt → String
  unfolding lookup text_or strip with_error
  detail_for r =
      let stat = py.upper r.stat in
      if str_eq stat "DELIVRD"
      then ""
      else with_error (text_or ("the carrier reported " ++ stat) (lookup stat stat_sentence))
          (strip r.err)

  digits_in : List Char → List Char
  digits_in [] = []
  digits_in (c ∷ cs) = let rest = digits_in cs in if py.is_digit c then c ∷ rest else rest

  -- `_key`: the last ten digits.
  unfoldable pub key_of : String → String
  unfolding digits_in drop_first
  key_of value =
      let d = digits_in (codes value) in
      text_of (if leb 10 (length d) then drop_first (length d - 10) d else d)

  unfoldable pub submit_instant : DeliveryReceipt → Option ℕ
  unfolding strip
  submit_instant r =
      let raw = strip r.submit_date in
      if length (codes raw) == 12
      then py.to_second raw
      else if length (codes raw) == 10
      then py.to_minute raw
      else none

  unfoldable pub echo_prefix : DeliveryReceipt → String
  unfolding strip drop_dots
  echo_prefix r = strip (text_of (reverse (drop_dots (reverse (codes (strip r.text_prefix))))))
