-- ===== src/Services/Examples.antt =====
-- Texts whose letters are capitals already, and a row of messages.
use owen_main.Common.{
  All, Bool, ap, String, List, [], ◌∷◌, ◌≡◌, ◌≢◌, refl, true, false, Option, none, some, contains,
}
use owen_main.Common.Chars.{strip, is_space, strip_chars, lstrip}
use owen_main.Services.Sms.{
  Keyword, stop, start, keyword_of, classify_keyword, is_opted_out, outbound_status_rank, lowered,
}
use owen_main.Services.Sms.Forward.{rank_of}
use owen_main.Services.Sms.OptOut.{after_messages, stop_opts_out}

abbrev same : String → String
same s = s

delivered_rank : rank_of same (some "delivered") ≡ 3
unfolding outbound_status_rank lowered
delivered_rank = refl

abbrev stop_message : Option String
stop_message = some " STOP "

abbrev later : List (Option String)
later = some "hello" ∷ some "HELP" ∷ none ∷ []

says_stop : classify_keyword same stop_message ≡ some stop
unfolding classify_keyword keyword_of contains strip strip_chars lstrip is_space
says_stop = refl

is_start : Option Keyword → Bool
is_start (some start) = true
is_start _ = false

not_start : (k : Option Keyword) → is_start k ≡ false → k ≢ some start
unfolding is_start
not_start k h q = cc (h, ap is_start q)

no_start : All (λ m. classify_keyword same m ≢ some start) later
unfolding classify_keyword keyword_of contains strip strip_chars lstrip is_space is_start
no_start = (not_start _ refl, (not_start _ refl, (not_start _ refl, tt)))

stop_opts_out_example : is_opted_out (after_messages same none (stop_message ∷ later)) ≡ true
stop_opts_out_example = stop_opts_out same stop_message later none says_stop no_start
