-- ===== src/Providers/Ari/Guard.antt =====
-- The guard of the ARI client on the calls that a human owns: which operations respect it.
use owen_main.Common.{
  ℕ, String, List, ◌∷◌, ◌≡◌, refl, ap, ◌∙◌, inl, inr, true, false, Option, none, some, In, str_eq,
  Bool-cases,
}
use owen_main.Telephony.Ownership.{is_channel_owned, claim}
use owen_main.Telephony.Ownership.Claims.{claim_owns}
use owen_main.Providers.Ari.Client.{
  Platform, Client, Act, Answer, returned, stopped, rescue, rescued, pure, failure, cancelled,
  record_message,
}
use owen_main.Providers.Ari.Channels.{answer, play, start_recording, play_and_wait, hangup}
use owen_main.Providers.Ari.Dial.{given}
use owen_main.Providers.Ari.Voicemail.{greet, take_message, voicemail_body, voicemail}

module _ (p : Platform) where
  -- On an owned channel each of the five does nothing, and returns.
  abbrev pub Untouched : String → Client → Type 0
  Untouched channel s =
      (answer p channel s ≡ (returned tt, s))
      × ((media : String) → play p channel media s ≡ (returned tt, s))
      × ((name : String) → start_recording p channel name s ≡ (returned tt, s))
      × ((media : String) → play_and_wait p channel media s ≡ (returned tt, s))
      × (hangup p channel s ≡ (returned tt, s))

  owned-Untouched :
      (channel : String) (s : Client)
      → is_channel_owned channel s.owners ≡ true
      → Untouched channel s
  unfolding answer play start_recording play_and_wait hangup
  owned-Untouched channel s h =
      (rw h refl, λ media. rw h refl, λ name. rw h refl, λ media. rw h refl, rw h refl)

  -- Once a human has claimed a call, `answer`, `play`, `record`, `play_and_wait` and `hangup` of the
  -- client do nothing on each channel (with a name) that the claim lists: nothing is sent, nothing of
  -- the client changes, and the caller sees no exception.
  pub claim_stops_client :
      (linkedid owner : String) (channels : List String) (reason channel : String) (s : Client)
      → (claim linkedid owner channels reason s.owners).0 ≡ true
      → In channel channels
      → str_eq channel "" ≡ false
      → Untouched channel (record s { owners = (claim linkedid owner channels reason s.owners).1 })
  claim_stops_client linkedid owner channels reason channel s h i n =
      owned-Untouched channel _ (claim_owns linkedid owner channels reason s.owners channel h i n).1

  greet_owned :
      (channel : String) (greeting : Option String) (s : Client)
      → is_channel_owned channel s.owners ≡ true
      → greet p channel greeting s ≡ (returned tt, s)
  unfolding greet
  greet_owned channel none s h = refl
  greet_owned channel (some media) s h = (owned-Untouched channel s h).3 media

  rescued_state : (m : Act (Unit {0})) (s : Client) → (rescue m (pure tt) s).1 ≡ (m s).1
  rescued_state m s = go (m s).0 (m s).1
    where
      go : (a : Answer (Unit {0})) (t : Client) → (rescued a (pure tt) t).1 ≡ t
      go (returned _) t = refl
      go (stopped failure) t = refl
      go (stopped cancelled) t = refl

  take_message_sends :
      (channel name : String) (max_silence duration : ℕ) (s : Client)
      → let t = (take_message p channel name max_silence duration s).1 in
        (t.requests ≡ record_message channel name max_silence duration ∷ s.requests)
        × (t.owners ≡ s.owners)
  unfolding take_message
  take_message_sends channel name max_silence duration s =
      let q = record_message channel name max_silence duration in
      elim (Bool-cases (p.cuts s.requests q)) [
        | inl c ↦ rw c (refl, refl)
        | inr c ↦ elim (Bool-cases (p.accepts s.requests q)) [
          | inl e ↦ rw (c, e) (refl, refl)
          | inr e ↦ rw (c, e) (refl, refl)
        ]
      ]

  body_sends :
      (channel : String) (greeting : Option String) (name : String) (duration max_silence : ℕ)
      (s : Client)
      → is_channel_owned channel s.owners ≡ true
      → let t = (voicemail_body p channel greeting name duration max_silence s).1 in
        (t.requests ≡ record_message channel name max_silence duration ∷ s.requests)
        × (t.owners ≡ s.owners)
  unfolding voicemail_body
  body_sends channel greeting name duration max_silence s h =
      rw (greet_owned channel (given greeting) s h)
        (take_message_sends channel name max_silence duration _)

  -- `voicemail` does not ask for its recording: a channel that a human owns is recorded all the same.
  -- It is sent that one request, whatever the greeting and however the wait for the end goes.
  pub voicemail_records_owned :
      (channel : String) (greeting : Option String) (name : String) (duration max_silence : ℕ)
      (s : Client)
      → is_channel_owned channel s.owners ≡ true
      → (voicemail p channel greeting name duration max_silence s).1.requests
        ≡ record_message channel name max_silence duration ∷ s.requests
  unfolding voicemail
  voicemail_records_owned channel greeting name duration max_silence s h =
      let t = (voicemail_body p channel greeting name duration max_silence s).1 in
      let b = body_sends channel greeting name duration max_silence s h in
      ap (λ u. (hangup p channel u).1.requests)
        (rescued_state (voicemail_body p channel greeting name duration max_silence) s)
      ∙ ap (λ u. u.1.requests)
          ((owned-Untouched channel t (ap (is_channel_owned channel) b.1 ∙ h)).4)
      ∙ b.0
