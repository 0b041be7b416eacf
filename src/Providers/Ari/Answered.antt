-- ===== src/Providers/Ari/Answered.antt =====
-- How `dial_number` ends: with a port of the dial node, or with the cancellation of the call's task.
use owen_main.Common.{
  ℕ, suc, String, [], ◌∷◌, ◌≡◌, refl, inl, inr, Bool, true, false, Option, none, some, In, In-cons,
  contains, str_eq, eq_iff, Bool-cases, arith, if◌then◌else◌,
}
use Prim.Native.String.{◌++◌}
use owen_main.Common.Json.{Dict}
use owen_main.Providers.Ari.Client.{
  Platform, Client, Act, ◌>>=◌, ◌>>◌, pure, note_dial, rescued, kept, continue, tell,
  delete_channel, delete_bridge, Answer, returned, stopped, failure, cancelled, Request, landed,
  sent,
}
use owen_main.Providers.Ari.Channels.{create_bridge, destroy_bridge, moh_stop}
use owen_main.Providers.Ari.Dial.{
  when, talk, dial_ringing, dial_body, dial_cleanup, dial_leg, dial_number, flow_dial_prefix,
  new_leg, ring_time, destroy_made,
}
use owen_main.Flows.Dtmf.{unwatch}
use owen_main.Providers.Ari.Resources.{Granted}
use owen_main.Providers.Ari.Teardown.{started, dialling}
use owen_main.Providers.Ari.Ports.{
  unanswered, AnswerPort, await_dial_answer-In, PortEnds, BodyEnds, talk-Ends,
}
use owen_main.Providers.Ari.Waits.{await_dial_answer}

module _ (p : Platform) where
  record Ends (channel out : String) (m : Act String) : Type 0 where
    at : (s : Client) → BodyEnds p channel out (m s).0 (m s).1

  Ends-bind :
      {A : Type 0} (channel out : String) (m : Act A) (f : A → Act String)
      → ((a : A) → Ends channel out (f a))
      → Ends channel out (m >>= f)
  Ends-bind {A} channel out m f k = record { at = λ s. go (m s).0 (m s).1 }
    where
      go :
          (a : Answer A) (t : Client) → BodyEnds p channel out (continue a f t).0 (continue a f t).1
      go (returned a) t = (k a).at t
      go (stopped x) t = tt

  bridged-Ends :
      (channel out : String) (record_name : Option String) (port : String) (s : Client)
      → In port ("answered" ∷ unanswered)
      → let m =
          if str_eq port "answered"
          then (create_bridge p >>= talk p channel out record_name)
          else pure port in
        BodyEnds p channel out (m s).0 (m s).1
  unfolding create_bridge
  bridged-Ends channel out record_name port s i = elim (Bool-cases (str_eq port "answered")) [
    | inl e ↦ rw e (
        (Ends-bind channel out (create_bridge p) (talk p channel out record_name)
            (λ o. record { at = talk-Ends p channel out record_name o })).at
          s)
    | inr e ↦ rw e (inl (rest port i e))
  ]
    where
      rest :
          (port : String)
          → In port ("answered" ∷ unanswered)
          → str_eq port "answered" ≡ false
          → In port unanswered
      rest port i e = ground (arith, In-cons port "answered" unanswered i, eq_iff port "answered")

  ringing-Ends :
      (channel out : String) (record_name : Option String) (hold_music : Bool) (s : Client)
      → let m = dial_ringing p channel out record_name hold_music in
        BodyEnds p channel out (m s).0 (m s).1
  unfolding dial_ringing when moh_stop
  ringing-Ends channel out record_name hold_music s =
      go hold_music (await_dial_answer p channel out s.arrivals).0 _
        (await_dial_answer-In p channel out s.arrivals)
    where
      go :
          (hold : Bool) (a : Answer (String × Dict)) (t : Client)
          → AnswerPort a
          → let m = continue a (λ found.
            note_dial found.1
            >> when hold (moh_stop p channel)
            >> (if str_eq found.0 "answered"
                then (create_bridge p >>= talk p channel out record_name)
                else pure found.0)) in
            BodyEnds p channel out (m t).0 (m t).1
      go hold (returned found) t i =
          (Ends-bind channel out (note_dial found.1 >> when hold (moh_stop p channel)) _
              (λ _. record { at = λ u. bridged-Ends channel out record_name found.0 u i })).at
            t
      go hold (stopped x) t i = tt

  Ends-failed : (channel out : String) → Ends channel out (pure "failed")
  unfolding contains
  Ends-failed channel out = record { at = λ s. inl refl }

  Ends-ringing :
      (channel out : String) (record_name : Option String) (hold_music : Bool)
      → Ends channel out (dial_ringing p channel out record_name hold_music)
  Ends-ringing channel out record_name hold_music = record {
    at = ringing-Ends channel out record_name hold_music;
  }

  Ends-if :
      (channel out : String) (b : Bool) (m n : Act String)
      → Ends channel out m
      → Ends channel out n
      → Ends channel out (if b then m else n)
  Ends-if channel out true m n km kn = km
  Ends-if channel out false m n km kn = kn

  body-Ends :
      (channel out number : String) (caller_id : Option String) (timeout : ℕ)
      (record_name : Option String) (hold_music : Bool)
      → Ends channel out (dial_body p channel out number caller_id timeout record_name hold_music)
  unfolding dial_body
  body-Ends channel out number caller_id timeout record_name hold_music =
      search (Ends-failed, Ends-ringing, Ends-if, Ends-bind) depth 8

  -- The end of a dial.
  abbrev pub DialEnds : String → String → Answer String → Client → Type 0
  DialEnds channel out (returned port) s = PortEnds p channel out port s
  DialEnds channel out (stopped t) s = t ≡ cancelled

  rescued-Ends :
      (channel out : String) (a : Answer String) (t : Client)
      → BodyEnds p channel out a t
      → DialEnds channel out (rescued a (pure "failed") t).0 (rescued a (pure "failed") t).1
  unfolding contains
  rescued-Ends channel out (returned port) t e = e
  rescued-Ends channel out (stopped failure) t e = inl refl
  rescued-Ends channel out (stopped cancelled) t e = refl

  grown-Ends :
      (channel out : String) (a : Answer String) (s t : Client)
      → ((q : Request) → Granted p q s.requests → Granted p q t.requests)
      → DialEnds channel out a s
      → DialEnds channel out a t
  grown-Ends channel out (returned port) s t g (inl i) = inl i
  grown-Ends channel out (returned port) s t g (inr j) = inr (j.0, (j.1.0, g _ j.1.1))
  grown-Ends channel out (stopped x) s t g e = e

  kept-Ends :
      (channel out : String) (cut : Bool) (a : Answer String) (s t : Client)
      → ((q : Request) → Granted p q s.requests → Granted p q t.requests)
      → DialEnds channel out a s
      → DialEnds channel out (kept a (landed cut tt)) t
  kept-Ends channel out true a s t g e = refl
  kept-Ends channel out false a s t g e = grown-Ends channel out a s t g e

  cleanup-Ends :
      (queue : ℕ) (channel out : String) (a : Answer String) (s : Client)
      → DialEnds channel out a s
      → let (b, t) = dial_cleanup p queue channel out s in DialEnds channel out (kept a b) t
  unfolding dial_cleanup destroy_made destroy_bridge
  cleanup-Ends queue channel out a s e = go s.bridge_id
    where
      s' : Client
      s' = record s { queues = unwatch queue (out ∷ channel ∷ []) s.queues }

      go :
          (o : Option String)
          → let (b, t) =
              continue
                (destroy_made p o s').0
                (λ _. tell p (delete_channel out))
                (destroy_made p o s').1 in
            DialEnds channel out (kept a b) t
      go none =
          kept-Ends channel out (p.cuts s.requests (delete_channel out)) a s
            (sent (delete_channel out) s') (λ q g. inr g) e
      go (some b) = elim (Bool-cases (p.cuts s.requests (delete_bridge b))) [
        | inl q ↦ rw q refl
        | inr q ↦ rw q (
            kept-Ends channel out (p.cuts (delete_bridge b ∷ s.requests) (delete_channel out)) a s
              (sent (delete_channel out) (sent (delete_bridge b) s')) (λ r g. inr (inr g)) e)
      ]

  -- `dial_number` returns "busy", "noanswer" or "failed", or it returns "answered" and then ARI has
  -- accepted the caller and the dialed leg into one bridge. It raises nothing but the cancellation of
  -- the task it runs in.
  pub dial_number_ends :
      (channel number : String) (caller_id : Option String) (timeout : ℕ)
      (record_name : Option String) (hold_music : Bool) (s : Client)
      → let (a, t) = dial_number p channel number caller_id timeout record_name hold_music s in
        DialEnds channel (flow_dial_prefix ++ p.hex s.next_id) a t
  unfolding dial_number new_leg dial_leg
  dial_number_ends channel number caller_id timeout record_name hold_music s =
      let out = flow_dial_prefix ++ p.hex s.next_id in
      let s0 = started p channel out (record s { next_id = suc s.next_id }) in
      let m =
        dialling p channel out number caller_id (ring_time 25 timeout) record_name hold_music in
      cleanup-Ends _ channel out (m s0).0 (m s0).1 (
        rescued-Ends channel out _ _ (
          (body-Ends channel out number caller_id (ring_time 25 timeout) record_name hold_music).at
            s0))
