-- ===== src/Providers/Ari/Rings.antt =====
-- What `ring_and_bridge` leaves behind.
use owen_main.Common.{
  ℕ, String, List, [], ◌∷◌, ◌≡◌, ◌≢◌, refl, sym, ap, ◌∙◌, true, Option, none, some, In, contains,
  str_eq, eq_iff, arith, if◌then◌else◌,
}
use owen_main.Flows.Dtmf.{watch, unwatch}
use owen_main.Providers.Ari.Client.{
  Platform, Client, ◌>>=◌, ◌>>◌, pure, waiting, note_dial, rescue, continue, tell, ask, Answer,
  returned, stopped, originate, delete_channel, delete_bridge, sent, Lands,
}
use owen_main.Providers.Ari.Channels.{create_bridge, destroy_bridge, add_to_bridge, record_bridge}
use owen_main.Providers.Ari.Waits.{await_bridge_end}
use owen_main.Providers.Ari.Dial.{when_some, destroy_made, ring_time, new_leg}
use owen_main.Providers.Ari.Ring.{
  non_empty, leg_ids, watched_ids, new_legs, ring_legs, drop_losers, drop_legs, bridge_winner,
  ring_answered, ring_body, ring_cleanup, ring_all, ring_named, ring_and_bridge,
}
use owen_main.Providers.Ari.Resources.{Resource, channel_leg, live, live-deleted}
use owen_main.Providers.Ari.Keeping.{
  Kept, Keeps, Keeps-originate, Keeps-bind, Keeps-if, Keeps-tell, Kept-nothing, keeps_rules,
}
use owen_main.Providers.Ari.Owing.{Owes, Owes-Keeps, Owes-bind, Owes-rescue, Owes-bridge, settled}
use owen_main.Providers.Ari.Dialling.{add_to_bridge-Keeps, when_some-Keeps, record_bridge-Keeps}
use owen_main.Providers.Ari.Teardown.{destroyed}

module _ {p : Platform} {legs : List String} where
  drop_losers-Keeps : (winner : String) (ls : List String) → Keeps p legs (drop_losers p winner ls)
  unfolding drop_losers
  drop_losers-Keeps winner [] = search keeps_rules
  drop_losers-Keeps winner (l ∷ ls) =
      let rest = drop_losers-Keeps winner ls in
      Keeps-if (str_eq l winner) _ (tell p (delete_channel l) >> drop_losers p winner ls) rest (
        Keeps-bind (tell p (delete_channel l)) (λ _. drop_losers p winner ls)
          (Keeps-tell (delete_channel l) refl) (λ _. rest))

  ring_legs-Keeps :
      (channel : String) (caller_id : Option String) (timeout : ℕ) (ls : List (String × String))
      → ((c : String) → In c (leg_ids ls) → In c legs)
      → Keeps p legs (ring_legs p channel caller_id timeout ls)
  unfolding ring_legs contains
  ring_legs-Keeps channel caller_id timeout [] i = search keeps_rules
  ring_legs-Keeps channel caller_id timeout ((out, endpoint) ∷ ls) i =
      let rest = ring_legs-Keeps channel caller_id timeout ls (λ c k. i c (later c k)) in
      let mine = i out here in
      Keeps-bind (ask p (originate _)) (λ _. ring_legs p channel caller_id timeout ls)
        (Keeps-originate _ out refl mine) (λ _. rest)
    where
      later : (c : String) → In c (leg_ids ls) → In c (out ∷ leg_ids ls)
      later c k = ground arith

      here : In out (out ∷ leg_ids ls)
      here = ground (arith, eq_iff out out)

  winner-Owes :
      (channel winner : String) (record_name : Option String)
      → Owes p legs (create_bridge p >>= bridge_winner p channel winner record_name)
  unfolding bridge_winner
  winner-Owes channel winner record_name =
      Owes-bridge (bridge_winner p channel winner record_name)
        (λ b. add_to_bridge p b (channel ∷ winner ∷ []) >>= λ joined.
          if joined
          then (do
            when_some record_name (record_bridge p b)
            info ← waiting (await_bridge_end p channel winner)
            note_dial info
            pure "answered")
          else pure "failed")
        (search keeps_rules) (λ b. refl)
        (λ b.
          search (keeps_rules, add_to_bridge-Keeps, when_some-Keeps, record_bridge-Keeps) depth 12)

  answered-Owes :
      (channel : String) (ls : List String) (record_name winner : Option String)
      → Owes p legs (ring_answered p channel ls record_name winner)
  unfolding ring_answered
  answered-Owes channel ls record_name none = Owes-Keeps (pure "noanswer") (search keeps_rules)
  answered-Owes channel ls record_name (some winner) =
      search (keeps_rules, Owes-bind, drop_losers-Keeps, winner-Owes) depth 8

  ring_body-Owes :
      (channel : String) (caller_id : Option String) (timeout : ℕ) (record_name : Option String)
      (ls : List (String × String))
      → ((c : String) → In c (leg_ids ls) → In c legs)
      → Owes p legs (ring_body p channel caller_id timeout record_name ls)
  unfolding ring_body
  ring_body-Owes channel caller_id timeout record_name ls i =
      let rung = ring_legs-Keeps channel caller_id timeout ls i in
      Owes-bind (ring_legs p channel caller_id timeout ls) _ rung
        (λ _. search (keeps_rules, Owes-bind, answered-Owes) depth 8)

module _ (p : Platform) where
  dropped :
      (ls : List String) (s : Client) (r : Resource)
      → Lands p
      → live p r (drop_legs p ls s).1.requests ≡ true
      → ((c : String) → In c ls → r ≢ channel_leg c) × (live p r s.requests ≡ true)
  unfolding drop_legs contains
  dropped [] s r calm h = (λ c i. absurd (cc i), h)
  dropped (l ∷ ls) s r calm h =
      let k =
        dropped ls (sent (delete_channel l) s) r calm
          (rw (calm s.requests (delete_channel l) refl) at h) in
      let d = live-deleted p r l s.requests k.1 in
      (λ c i e. k.0 c (rest_of c i (λ q. d.0 (e ∙ ap channel_leg (sym q)))) e, d.1)
    where
      rest_of : (c : String) → In c (l ∷ ls) → (l ≢ c) → In c ls
      rest_of c i n = ground (arith, eq_iff l c)

  cleanup_by :
      (queue : ℕ) (watched legs : List String) (s : Client)
      → Lands p
      → (ring_cleanup p queue watched legs s).1
        ≡ (drop_legs p legs
            (destroy_made p s.bridge_id (record s { queues = unwatch queue watched s.queues })).1).1
  unfolding ring_cleanup destroy_made destroy_bridge
  cleanup_by queue watched legs s calm = go s.bridge_id
    where
      s' : Client
      s' = record s { queues = unwatch queue watched s.queues }

      go :
          (o : Option String)
          → (continue (destroy_made p o s').0 (λ _. drop_legs p legs) (destroy_made p o s').1).1
            ≡ (drop_legs p legs (destroy_made p o s').1).1
      go none = refl
      go (some b) = rw (calm s.requests (delete_bridge b) refl) refl

  -- How `ring_all` starts.
  abbrev ring_started : String → List (String × String) → Client → Client
  ring_started channel legs s = record s {
    queues = (watch (watched_ids channel legs) s.queues).1;
    last_dial = [];
    bridge_id = none;
  }

  new_leg-Keeps : Keeps p [] (new_leg p)
  unfolding new_leg
  new_leg-Keeps = search keeps_rules

  ring_all_settles :
      (channel : String) (caller_id : Option String) (timeout : ℕ) (record_name : Option String)
      (legs : List (String × String)) (s : Client) (r : Resource)
      → Lands p
      → live p r (ring_all p channel caller_id timeout record_name legs s).1.requests ≡ true
      → live p r s.requests ≡ true
  unfolding ring_all
  ring_all_settles channel caller_id timeout record_name legs s r calm h =
      let s0 = ring_started channel legs s in
      let o =
        Owes-rescue {p = p} {legs = leg_ids legs}
          (ring_body p channel caller_id timeout record_name legs) "failed"
          (ring_body-Owes channel caller_id timeout record_name legs (λ c i. i)) in
      let s1 =
        (rescue (ring_body p channel caller_id timeout record_name legs) (pure "failed") s0).1 in
      let d = dropped (leg_ids legs) _ r calm (
        rw
          (cleanup_by (watch (watched_ids channel legs) s.queues).0 (watched_ids channel legs)
            (leg_ids legs) s1 calm)
          at h) in
      let b = destroyed p s1.bridge_id _ r d.1 in settled r calm (o.at s0) d.0 b.0 b.1

  new_legs-Keeps : (es : List String) → Keeps p [] (new_legs p es)
  unfolding new_legs
  new_legs-Keeps [] = search keeps_rules
  new_legs-Keeps (e ∷ es) =
      Keeps-bind (new_leg p) (λ out. new_legs p es >>= λ rest. pure ((out, e) ∷ rest)) new_leg-Keeps
        (λ out.
          Keeps-bind (new_legs p es) (λ rest. pure ((out, e) ∷ rest)) (new_legs-Keeps es)
            (search keeps_rules))

  ring_named_settles :
      (channel : String) (caller_id : Option String) (timeout : ℕ) (record_name : Option String)
      (es : List String) (s : Client) (r : Resource)
      → Lands p
      → live p r (ring_named p channel caller_id timeout record_name es s).1.requests ≡ true
      → live p r s.requests ≡ true
  unfolding ring_named
  ring_named_settles channel caller_id timeout record_name [] s r calm h = h
  ring_named_settles channel caller_id timeout record_name (e ∷ es) s r calm h =
      go (new_legs p (e ∷ es) s).0 (new_legs p (e ∷ es) s).1 ((new_legs-Keeps (e ∷ es)).at s) h
    where
      go :
          (a : Answer (List (String × String))) (s' : Client)
          → Kept p [] s s'
          → live p r
              (continue a
                (ring_all p channel caller_id (ring_time 25 timeout) record_name)
                s').1.requests
            ≡ true
          → live p r s.requests ≡ true
      go (returned legs) s' k m =
          Kept-nothing p s s' r k
            (ring_all_settles channel caller_id (ring_time 25 timeout) record_name legs s' r calm m)
      go (stopped t) s' k m = Kept-nothing p s s' r k m

  -- A leg or a bridge that is there after `ring_and_bridge` was there before: also when a wait fails, or the
  -- task is cancelled at a wait or a request, the legs that it rang and its bridge are asked to be destroyed.
  -- The task is not cancelled at the request that makes the bridge, nor at one that deletes a bridge or a
  -- channel.
  pub ring_and_bridge_leaves_nothing :
      (channel : String) (endpoints : List String) (caller_id : Option String) (timeout : ℕ)
      (record_name : Option String) (s : Client) (r : Resource)
      → Lands p
      → live p r (ring_and_bridge p channel endpoints caller_id timeout record_name s).1.requests
        ≡ true
      → live p r s.requests ≡ true
  unfolding ring_and_bridge
  ring_and_bridge_leaves_nothing channel endpoints caller_id timeout record_name s r calm h =
      ring_named_settles channel caller_id timeout record_name (non_empty endpoints) s r calm h
