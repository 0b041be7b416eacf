-- ===== src/Providers/Ari/Music.antt =====
-- The hold music of a dial whose originate is refused.
use owen_main.Common.{ℕ, List, String, [], ◌∷◌, ◌≡◌, refl, true, false, Option, some}
use Prim.Native.String.{◌++◌}
use owen_main.Flows.Dtmf.{watch, unwatch}
use owen_main.Providers.Ari.Client.{
  Platform, Client, Request, originate, start_music, delete_channel,
}
use owen_main.Providers.Ari.Events.{has_id}
use owen_main.Providers.Ari.Channels.{moh_start}
use owen_main.Providers.Ari.Dial.{
  flow_dial_prefix, flow_dial_arg, given, ring_time, when, new_leg, dial_body, destroy_made,
  dial_cleanup, dial_leg, dial_number,
}

module _ (p : Platform) where
  -- When ARI refuses to dial, the music on hold that `dial_number` started for the caller goes on: the
  -- requests are the music, the dial and the hang-up of the leg, and none of them stops it.
  pub refused_dial_keeps_music :
      (channel number : String) (caller_id : Option String) (timeout : ℕ)
      (record_name : Option String) (s : Client)
      → let out = flow_dial_prefix ++ p.hex s.next_id in
        let dial = originate (record {
          endpoint = "PJSIP/" ++ number ++ "@" ++ p.trunk;
          app_args = some flow_dial_arg;
          leg = some out;
          originator = some channel;
          caller_id = given caller_id;
          ring_timeout = some (ring_time 25 timeout);
          variables = [];
        }) in
        ((before : List Request) (r : Request) → p.cuts before r ≡ false)
        → has_id (p.reply (start_music channel ∷ s.requests) dial) ≡ false
        → (dial_number p channel number caller_id timeout record_name true s).1.requests
          ≡ delete_channel out ∷ dial ∷ start_music channel ∷ s.requests
  unfolding dial_number new_leg dial_leg dial_body when moh_start dial_cleanup destroy_made watch
      unwatch
  refused_dial_keeps_music channel number caller_id timeout record_name s calm h =
      rw (calm s.requests (start_music channel), calm (start_music channel ∷ s.requests) _, h) refl
