-- ===== src/Services/Sms/OptOut.antt =====
-- A contact who said STOP stays blocked until they say START.
use owen_main.Common.{String, List, [], ◌∷◌, ◌≡◌, ◌≢◌, refl, true, Option, none, some, All}
use owen_main.Services.Sms.{
  Keyword, stop, start, help, classify_keyword, next_optout_state, is_opted_out,
}

-- The opt-out state after a sequence of inbound messages.
unfoldable pub after_messages :
    (String → String) → Option String → List (Option String) → Option String
unfolding next_optout_state classify_keyword
after_messages upper state [] = state
after_messages upper state (m ∷ ms) =
    after_messages upper (next_optout_state state (classify_keyword upper m)) ms

still_out :
    (state : Option String) (k : Option Keyword)
    → k ≢ some start
    → is_opted_out state ≡ true
    → is_opted_out (next_optout_state state k) ≡ true
unfolding next_optout_state is_opted_out
still_out state (some stop) n h = refl
still_out state (some start) n h = absurd (n refl)
still_out state (some help) n h = h
still_out state none n h = h

-- A contact who is opted out stays so through any messages of which none is a START keyword.
pub opted_out_until_start :
    (upper : String → String) (messages : List (Option String)) (state : Option String)
    → All (λ m. classify_keyword upper m ≢ some start) messages
    → is_opted_out state ≡ true
    → is_opted_out (after_messages upper state messages) ≡ true
unfolding after_messages
opted_out_until_start upper [] state n h = h
opted_out_until_start upper (m ∷ ms) state n h =
    opted_out_until_start upper ms (next_optout_state state (classify_keyword upper m)) n.1
      (still_out state (classify_keyword upper m) n.0 h)

-- A message that is a STOP keyword opts the contact out, whatever the state was, and they stay out
-- through any later messages of which none is a START keyword.
pub stop_opts_out :
    (upper : String → String) (message : Option String) (later : List (Option String))
    (state : Option String)
    → classify_keyword upper message ≡ some stop
    → All (λ m. classify_keyword upper m ≢ some start) later
    → is_opted_out (after_messages upper state (message ∷ later)) ≡ true
unfolding after_messages is_opted_out
stop_opts_out upper message later state h n =
    rw h (opted_out_until_start upper later (some "opted_out") n refl)
