-- ===== src/Providers/Ari/Teardown.antt =====
-- What `dial_number` leaves behind.
use owen_main.Common.{
  ℕ, String, List, [], ◌∷◌, ◌≡◌, ◌≢◌, refl, sym, ap, ◌∙◌, Bool, true, false, Option, none, some, In,
  contains, All, suc, ◌<◌, eq_iff, arith,
}
use Prim.Native.String.{◌++◌}
use mathlib.Core.Option.{some_inj}
use owen_main.Common.Json.{str}
use owen_main.Flows.Dtmf.{watch, unwatch, unwatch_all, Registries, listeners}
use owen_main.Flows.Dtmf.Watching.{NoEmpty, unwatch-watch}
use owen_main.Common.Assoc.{lookup}
use owen_main.Providers.Ari.Client.{
  Platform, Client, Act, pure, rescue, continue, tell, delete_channel, delete_bridge, landed, sent,
  Lands,
}
use owen_main.Providers.Ari.Channels.{destroy_bridge}
use owen_main.Providers.Ari.Dial.{
  ring_time, flow_dial_prefix, dial_body, destroy_made, dial_cleanup, dial_leg, dial_number,
  new_leg,
}
use owen_main.Providers.Ari.Resources.{
  Resource, channel_leg, mixing_bridge, live, live-deleted, live-destroyed,
}
use owen_main.Providers.Ari.Dialling.{body-Owes}
use owen_main.Providers.Ari.Owing.{Owed, Owes, Owes-rescue, settled}

pub unwatch_same :
    (q : ℕ) (cs : List String) (a b : Registries)
    → a.watchers ≡ b.watchers
    → (unwatch q cs a).watchers ≡ (unwatch q cs b).watchers
unfolding unwatch
unwatch_same q cs a b e = ap (unwatch_all q cs) e

module _ (p : Platform) where
  pub destroyed :
      (o : Option String) (s : Client) (r : Resource)
      → live p r (destroy_made p o s).1.requests ≡ true
      → ((b : String) → o ≡ some b → r ≢ mixing_bridge b) × (live p r s.requests ≡ true)
  unfolding destroy_made destroy_bridge
  destroyed none s r h = (λ b e. cc e, h)
  destroyed (some d) s r h =
      let k = live-destroyed p r d s.requests h in
      (λ b e m. k.0 (m ∙ ap mixing_bridge (sym (some_inj.0 e))), k.1)

  -- The bridge is destroyed first, then the leg.
  cleanup_by :
      (queue : ℕ) (channel out : String) (s : Client)
      → Lands p
      → (dial_cleanup p queue channel out s).1.requests
        ≡ delete_channel out
          ∷ (destroy_made p s.bridge_id
              (record s { queues = unwatch queue (out ∷ channel ∷ []) s.queues })).1.requests
  unfolding dial_cleanup destroy_made destroy_bridge
  cleanup_by queue channel out s calm = go s.bridge_id
    where
      s' : Client
      s' = record s { queues = unwatch queue (out ∷ channel ∷ []) s.queues }

      go :
          (o : Option String)
          → (continue
              (destroy_made p o s').0
              (λ _. tell p (delete_channel out))
              (destroy_made p o s').1).1.requests
            ≡ delete_channel out ∷ (destroy_made p o s').1.requests
      go none = refl
      go (some b) = rw (calm s.requests (delete_bridge b) refl) refl

  cleanup-watchers :
      (queue : ℕ) (channel out : String) (s : Client)
      → (dial_cleanup p queue channel out s).1.queues.watchers
        ≡ (unwatch queue (out ∷ channel ∷ []) s.queues).watchers
  unfolding dial_cleanup destroy_made destroy_bridge
  cleanup-watchers queue channel out s = go s.bridge_id
    where
      s' : Client
      s' = record s { queues = unwatch queue (out ∷ channel ∷ []) s.queues }

      go :
          (o : Option String)
          → (continue
              (destroy_made p o s').0
              (λ _. tell p (delete_channel out))
              (destroy_made p o s').1).1.queues.watchers
            ≡ s'.queues.watchers
      go none = refl
      go (some b) = either (p.cuts s.requests (delete_bridge b))
        where
          either :
              (cut : Bool)
              → (continue
                  (landed cut tt)
                  (λ _. tell p (delete_channel out))
                  (sent (delete_bridge b) s')).1.queues.watchers
                ≡ s'.queues.watchers
          either true = refl
          either false = refl

  dial_settled :
      (queue : ℕ) (channel out : String) (s s' : Client) (r : Resource)
      → Lands p
      → Owed p (out ∷ []) s s'
      → live p r (dial_cleanup p queue channel out s').1.requests ≡ true
      → live p r s.requests ≡ true
  unfolding contains
  dial_settled queue channel out s s' r calm o h =
      let k = live-deleted p r out _ (rw (cleanup_by queue channel out s' calm) at h) in
      let d = destroyed s'.bridge_id _ r k.1 in
      settled r calm o (λ c i e. k.0 (e ∙ ap channel_leg (one_of c i))) d.0 d.1
    where
      one_of : (c : String) → In c (out ∷ []) → c ≡ out
      one_of c i = ground (arith, eq_iff out c)

  -- How `dial_leg` starts.
  abbrev pub started : String → String → Client → Client
  started channel out s = record s {
    queues = (watch (out ∷ channel ∷ []) s.queues).1;
    last_dial = ("dial_out_leg", str out) ∷ [];
    bridge_id = none;
  }

  abbrev pub dialling :
      String → String → String → Option String → ℕ → Option String → Bool → Act String
  dialling channel out number caller_id timeout record_name hold_music =
      rescue (dial_body p channel out number caller_id timeout record_name hold_music)
        (pure "failed")

  dialling-Owes :
      (channel out number : String) (caller_id : Option String) (timeout : ℕ)
      (record_name : Option String) (hold_music : Bool)
      → Owes p (out ∷ []) (dialling channel out number caller_id timeout record_name hold_music)
  unfolding contains
  dialling-Owes channel out number caller_id timeout record_name hold_music =
      Owes-rescue _ "failed" (
        body-Owes channel out number caller_id timeout record_name hold_music
          (ground (arith, eq_iff out out)))

  -- A leg or a bridge that is there after `dial_number` was there before: also when a wait fails, or the
  -- task is cancelled at a wait or a request, what the call asked for is asked to be destroyed. The task is
  -- not cancelled at the request that makes the bridge, nor at one that deletes a bridge or a channel.
  pub dial_number_leaves_nothing :
      (channel number : String) (caller_id : Option String) (timeout : ℕ)
      (record_name : Option String) (hold_music : Bool) (s : Client) (r : Resource)
      → Lands p
      → live p r
          (dial_number p channel number caller_id timeout record_name hold_music s).1.requests
        ≡ true
      → live p r s.requests ≡ true
  unfolding dial_number new_leg dial_leg watch
  dial_number_leaves_nothing channel number caller_id timeout record_name hold_music s r calm h =
      let out = flow_dial_prefix ++ p.hex s.next_id in
      let s0 = started channel out (record s { next_id = suc s.next_id }) in
      dial_settled (watch (out ∷ channel ∷ []) s.queues).0 channel out s0
        (dialling channel out number caller_id (ring_time 25 timeout) record_name hold_music s0).1 r
        calm
        ((dialling-Owes channel out number caller_id (ring_time 25 timeout) record_name
            hold_music).at
          s0)
        h

  -- `dial_number` gives up what it watches: the channel has the watchers that it had. The numbers of
  -- queues in use are below the next one, and no channel is in the registry without watchers.
  pub dial_number_unwatches :
      (channel number : String) (caller_id : Option String) (timeout : ℕ)
      (record_name : Option String) (hold_music : Bool) (s : Client) (c : String)
      → NoEmpty s.queues.watchers
      → All (λ q. q < s.queues.next_queue) (listeners c s.queues.watchers)
      → lookup c
          (dial_number p channel number caller_id timeout record_name hold_music
            s).1.queues.watchers
        ≡ lookup c s.queues.watchers
  unfolding dial_number new_leg dial_leg
  dial_number_unwatches channel number caller_id timeout record_name hold_music s c e f =
      let out = flow_dial_prefix ++ p.hex s.next_id in
      let s0 = started channel out (record s { next_id = suc s.next_id }) in
      let s1 =
        (dialling channel out number caller_id (ring_time 25 timeout) record_name hold_music
          s0).1 in
      let k =
        ((dialling-Owes channel out number caller_id (ring_time 25 timeout) record_name
            hold_music).at
          s0).watchers in
      ap (lookup c) (
        cleanup-watchers (watch (out ∷ channel ∷ []) s.queues).0 channel out s1
        ∙ unwatch_same (watch (out ∷ channel ∷ []) s.queues).0 (out ∷ channel ∷ []) s1.queues
            s0.queues k)
      ∙ unwatch-watch (out ∷ channel ∷ []) s.queues c e f
