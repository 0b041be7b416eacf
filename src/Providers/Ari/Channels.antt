-- ===== src/Providers/Ari/Channels.antt =====
-- The operations of `AsteriskAriClient` on one channel or bridge, with the guard for calls that a
-- human owns. A prompt that is not a media URI is resolved to a sound by the platform.
use owen_main.Common.{
  ◌==◌, String, List, [], ◌∷◌, Bool, true, false, Option, none, some, str_eq, if◌then◌else◌,
}
use Prim.Native.String.{◌++◌}
use Prim.Native.Char.{code}
use owen_main.Common.Json.{Value, get, as_dict, truthy}
use owen_main.Common.Print.{str_of}
use owen_main.Common.Chars.{starts_with}
use owen_main.Telephony.Ownership.{is_channel_owned}
use owen_main.Flows.Dtmf.{register_playback, unregister_playback}
use owen_main.Providers.Ari.Client.{
  Platform, Act, ◌>>=◌, ◌>>◌, pure, waiting, on_queues, ensuring, send, ask, tell, new_hex, Answer,
  returned, stopped, Arrival, trouble, answer_channel, delete_channel, play_media, play_tracked,
  record_channel, create_mixing, add_channels, record_mixing, delete_bridge, hold_channel,
  unhold_channel, ring_channel, unring_channel, start_music, stop_music, redirect,
}
use owen_main.Providers.Ari.Events.{has_id}

abbrev pub media_uri_schemes : List String
media_uri_schemes =
    "sound:" ∷ "recording:" ∷ "digits:" ∷ "number:" ∷ "characters:" ∷ "tone:" ∷ "play:" ∷ []

starts_with_any : List String → String → Bool
unfolding starts_with
starts_with_any [] s = false
starts_with_any (p ∷ ps) s =
    let rest = starts_with_any ps s in if starts_with p s then true else rest

unfoldable pub is_media_uri : String → Bool
unfolding starts_with_any
is_media_uri media = starts_with_any media_uri_schemes media

-- `" " in media`
has_space : String → Bool
has_space String.[] = false
has_space (String.◌∷◌ c s) = let rest = has_space s in if code c == 32 then true else rest

-- The guard: an owned channel is left alone.
abbrev pub unless_owned : String → Act (Unit {0}) → Act (Unit {0})
unless_owned channel m s = if is_channel_owned channel s.owners then pure tt s else m s

-- `str(bid) if bid else None`
unfoldable pub bridge_of : Value → Option String
bridge_of reply = elim (as_dict reply) [
  | none ↦ none
  | some d ↦ if truthy (get "id" d) then some (str_of (get "id" d)) else none
]

module _ (p : Platform) where
  -- `_resolve_media`
  unfoldable pub resolve_media : String → Option String
  unfolding is_media_uri has_space
  resolve_media media = if is_media_uri media then some media else elim (p.prompt_path media) [
    | none ↦ if has_space media then none else some ("sound:" ++ media)
    | some path ↦
        if str_eq path ""
        then (if has_space media then none else some ("sound:" ++ media))
        else some ("sound:" ++ path)
  ]

  unfoldable pub answer : String → Act (Unit {0})
  answer channel = unless_owned channel (tell p (answer_channel channel))

  play_resolved : String → Option String → Act (Unit {0})
  play_resolved channel none = pure tt
  play_resolved channel (some uri) = tell p (play_media channel uri)

  unfoldable pub play : String → String → Act (Unit {0})
  unfolding play_resolved
  play channel media = unless_owned channel (play_resolved channel (resolve_media media))

  -- `_start_playback`: the id of a playback that ARI accepted.
  unfoldable pub start_playback : String → String → Act (Option String)
  unfolding register_playback unregister_playback has_id
  start_playback channel uri = do
    id ← new_hex p
    on_queues (register_playback id)
    data_ ← ask p (play_tracked channel uri id)
    if has_id data_ then pure (some id) else (do on_queues (unregister_playback id); pure none)

  -- `record`
  unfoldable pub start_recording : String → String → Act (Unit {0})
  start_recording channel name = unless_owned channel (tell p (record_channel channel name))

  -- One wait for the end of the playback, or for the time to run out.
  unfoldable pub await_signal : List Arrival → Answer (Unit {0}) × List Arrival
  await_signal [] = (returned tt, [])
  await_signal (trouble t ∷ rest) = (stopped t, rest)
  await_signal (_ ∷ rest) = (returned tt, rest)

  wait_played : Option String → Act (Unit {0})
  unfolding await_signal unregister_playback
  wait_played none = pure tt
  wait_played (some id) = ensuring (waiting await_signal) (on_queues (unregister_playback id))

  play_tracked_to_end : String → Option String → Act (Unit {0})
  unfolding start_playback wait_played
  play_tracked_to_end channel none = pure tt
  play_tracked_to_end channel (some uri) = do
    started ← start_playback channel uri
    wait_played started

  unfoldable pub play_and_wait : String → String → Act (Unit {0})
  unfolding play_tracked_to_end resolve_media
  play_and_wait channel media =
      unless_owned channel (play_tracked_to_end channel (resolve_media media))

  unfoldable pub hangup : String → Act (Unit {0})
  hangup channel = unless_owned channel (tell p (delete_channel channel))

  unfoldable pub ring_start : String → Act (Unit {0})
  ring_start channel = tell p (ring_channel channel)

  unfoldable pub ring_stop : String → Act (Unit {0})
  ring_stop channel = tell p (unring_channel channel)

  unfoldable pub moh_start : String → Act (Unit {0})
  moh_start channel = tell p (start_music channel)

  unfoldable pub moh_stop : String → Act (Unit {0})
  moh_stop channel = tell p (stop_music channel)

  unfoldable pub hold : String → Act (Unit {0})
  hold channel = tell p (hold_channel channel)

  unfoldable pub unhold : String → Act (Unit {0})
  unhold channel = tell p (unhold_channel channel)

  unfoldable pub blind_transfer : String → String → Act (Unit {0})
  blind_transfer channel endpoint = tell p (redirect channel endpoint)

  unfoldable pub create_bridge : Act (Option String)
  unfolding bridge_of
  create_bridge = do reply ← ask p create_mixing; pure (bridge_of reply)

  unfoldable pub named_channels : List String → List String
  named_channels [] = []
  named_channels (c ∷ cs) = let rest = named_channels cs in if str_eq c "" then rest else c ∷ rest

  unfoldable pub join_all : String → List String → Act Bool
  join_all bridge [] = pure false
  join_all bridge (c ∷ cs) = send p (add_channels bridge (c ∷ cs))

  unfoldable pub add_to_bridge : String → List String → Act Bool
  unfolding named_channels join_all
  add_to_bridge bridge channels = join_all bridge (named_channels channels)

  unfoldable pub record_bridge : String → String → Act (Unit {0})
  record_bridge bridge name = tell p (record_mixing bridge name)

  unfoldable pub destroy_bridge : String → Act (Unit {0})
  destroy_bridge bridge = tell p (delete_bridge bridge)
