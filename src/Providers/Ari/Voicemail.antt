-- ===== src/Providers/Ari/Voicemail.antt =====
-- `read_digit`, `_play_prompt_barge_in` and `voicemail` of backend/app/providers/asterisk_client.py.
-- Times are whole numbers of seconds.
use owen_main.Common.{ℕ, String, List, [], ◌∷◌, Option, none, some, max, if◌then◌else◌}
use Prim.Native.String.{◌++◌}
use owen_main.Common.Chars.{codes}
use owen_main.Common.{length, ltb}
use owen_main.Flows.Dtmf.{
  watch, unwatch, digit_queue, unregister_playback, register_recording, unregister_recording,
}
use owen_main.Providers.Ari.Client.{
  Platform, Act, ◌>>=◌, ◌>>◌, pure, gets, waiting, registering, on_queues, ensuring, rescue, send,
  tell, returned, stopped, event, digit, silence, trouble, delete_playback, record_message,
}
use owen_main.Providers.Ari.Waits.{Wait, await_voicemail_end}
use owen_main.Providers.Ari.Channels.{resolve_media, start_playback, play, play_and_wait, hangup}
use owen_main.Providers.Ari.Dial.{given}

-- The one wait of a prompt: the digit of a caller who barges in.
unfoldable pub await_prompt : Wait (Option String)
await_prompt [] = (returned none, [])
await_prompt (event at e ∷ rest) = (returned none, rest)
await_prompt (silence at ∷ rest) = (returned none, rest)
await_prompt (digit d ∷ rest) = (returned (some d), rest)
await_prompt (trouble t ∷ rest) = (stopped t, rest)

text_length : String → ℕ
text_length s = length (codes s)

-- `while len(digits) < max_digits`
unfoldable pub collect_digits : ℕ → String → Wait String
unfolding text_length
collect_digits limit digits [] = (returned digits, [])
collect_digits limit digits (a ∷ rest) =
    let more = collect_digits limit digits rest in
    if ltb (text_length digits) limit
    then elim a [
      | event at e ↦ more
      | digit d ↦ collect_digits limit (digits ++ d) rest
      | silence at ↦ (returned digits, rest)
      | trouble t ↦ (stopped t, rest)
    ]
    else (returned digits, a ∷ rest)

module _ (p : Platform) where
  barged : String → Option String → Act String
  barged id none = pure ""
  barged id (some d) = do tell p (delete_playback id); pure d

  hear_prompt : Option String → Act String
  unfolding await_prompt barged unregister_playback
  hear_prompt none = pure ""
  hear_prompt (some id) =
      ensuring (rescue (do d ← waiting await_prompt; barged id d) (pure ""))
        (on_queues (unregister_playback id))

  prompt_resolved : String → Option String → Act String
  unfolding start_playback hear_prompt
  prompt_resolved channel none = pure ""
  prompt_resolved channel (some uri) = do
    started ← start_playback p channel uri
    hear_prompt started

  -- `_play_prompt_barge_in`
  unfoldable pub play_prompt_barge_in : String → String → Act String
  unfolding prompt_resolved resolve_media
  play_prompt_barge_in channel media = prompt_resolved channel (resolve_media p media)

  prompted : String → Option String → Act String
  unfolding play_prompt_barge_in
  prompted channel none = pure ""
  prompted channel (some media) = play_prompt_barge_in channel media

  play_if : String → Option String → Act (Unit {0})
  unfolding play
  play_if channel none = pure tt
  play_if channel (some media) = play p channel media

  read_from : String → Option String → ℕ → Option (List String) → Act (Option String)
  unfolding play_if prompted collect_digits given
  read_from channel prompt limit none = do play_if channel prompt; pure none
  read_from channel prompt limit (some queue) = do
    first ← prompted channel prompt
    digits ← waiting (collect_digits (max 1 limit) first)
    pure (given (some digits))

  -- `max_digits` of zero reads as one.
  unfoldable pub read_digit : String → Option String → ℕ → Act (Option String)
  unfolding read_from digit_queue given
  read_digit channel prompt limit = do
    queue ← gets (λ s. digit_queue channel s.queues)
    read_from channel (given prompt) limit queue

  unfoldable pub greet : String → Option String → Act (Unit {0})
  unfolding play_and_wait
  greet channel none = pure tt
  greet channel (some media) = play_and_wait p channel media

  unfoldable pub take_message : String → String → ℕ → ℕ → Act (Unit {0})
  unfolding await_voicemail_end
  take_message channel name max_silence duration = do
    started ← send p (record_message channel name max_silence duration)
    if started then waiting (await_voicemail_end p) else pure tt

  unfoldable pub voicemail_body : String → Option String → String → ℕ → ℕ → Act (Unit {0})
  unfolding greet given take_message register_recording unregister_recording watch unwatch
  voicemail_body channel greeting name duration max_silence = do
    greet channel (given greeting)
    on_queues (register_recording name)
    queue ← registering (watch (channel ∷ []))
    ensuring (take_message channel name max_silence duration)
        (do on_queues (unregister_recording name); on_queues (unwatch queue (channel ∷ [])))

  unfoldable pub voicemail : String → Option String → String → ℕ → ℕ → Act (Unit {0})
  unfolding voicemail_body hangup
  voicemail channel greeting name duration max_silence =
      ensuring (rescue (voicemail_body channel greeting name duration max_silence) (pure tt))
        (hangup p channel)
