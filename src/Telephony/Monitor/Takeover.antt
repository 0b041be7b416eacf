-- ===== src/Telephony/Monitor/Takeover.antt =====
-- A take-over: the claim comes first, and the caller stays on the line.
use owen_main.Common.{
  String, List, [], ◌∷◌, ◌++◌, ◌≡◌, ◌≢◌, refl, ap, sym, ◌∙◌, Bool, true, false, Option, none, some,
  Result, ok, raise, All, All-append, append_assoc, str_eq, if◌then◌else◌,
}
use owen_main.Telephony.Ownership.{Registry, claim, add_channel, owner_of}
use owen_main.Telephony.Ownership.Held.{OwnedBy-add_channel}
use owen_main.Telephony.Ownership.Claims.{claim_names_owner, claim_refused}
use owen_main.Telephony.Monitor.Desk.{
  Ari, AriCall, Desk, Act, ◌>>=◌, continue, pure, owning, tell, succeeds, made, noted, hangup,
  create_bridge, add_to_bridge, destroy_bridge,
}
use owen_main.Telephony.Monitor.{
  refused, taken, when_named, enter_bridge, fresh_bridge, call_bridge, join, seize, take_over,
  failed,
}

-- The call does not hang up the channel.
abbrev pub Spared : String → AriCall → Type 0
Spared target (hangup c) = c ≢ target
Spared target _ = Unit

-- A call to the ARI client that leaves the caller on the line, made while the operator owns the call.
abbrev pub Covered : String → String → String → AriCall × Registry → Type 0
Covered linkedid operator target (c, r) = (owner_of linkedid r ≡ some operator) × Spared target c

record Safely (l o target : String) (s s' : Desk) : Type 0 where
  calls : List (AriCall × Registry)
  log : s'.log ≡ calls ++ s.log
  all : All (Covered l o target) calls
  owned : owner_of l s'.registry ≡ some o

module _ (l o target : String) where
  Safely-refl : (s : Desk) → owner_of l s.registry ≡ some o → Safely l o target s s
  Safely-refl s h = record { calls = []; log = refl; all = tt; owned = h }

  Safely-noted :
      (c : AriCall) (s : Desk)
      → Spared target c
      → owner_of l s.registry ≡ some o
      → Safely l o target s (noted c s)
  Safely-noted c s k h = record {
    calls = (c, s.registry) ∷ [];
    log = refl;
    all = ((h, k), tt);
    owned = h;
  }

  Safely-trans :
      {s t u : Desk} → Safely l o target s t → Safely l o target t u → Safely l o target s u
  Safely-trans {s} a b = record {
    calls = b.calls ++ a.calls;
    log = b.log ∙ ap (λ h. b.calls ++ h) a.log ∙ sym (append_assoc b.calls a.calls s.log);
    all = All-append (Covered l o target) b.calls a.calls b.all a.all;
    owned = b.owned;
  }

  -- The action keeps the call covered, when the operator owns it.
  record Safe {A : Type 0} (m : Act A) : Type 0 where
    at : (s : Desk) → owner_of l s.registry ≡ some o → Safely l o target s (m s).1

  Safe-pure : {A : Type 0} (a : A) → Safe (pure a)
  Safe-pure a = record { at = Safely-refl }

  Safe-bind :
      {A B : Type 0} {m : Act A} {f : A → Act B} → Safe m → ((a : A) → Safe (f a)) → Safe (m >>= f)
  Safe-bind {A} {B} {m} {f} p q = record { at = λ s h. go (m s).0 (m s).1 (p.at s h) }
    where
      go :
          {s : Desk} (r : Result A) (t : Desk)
          → Safely l o target s t
          → Safely l o target s (continue r f t).1
      go (ok a) t k = Safely-trans k ((q a).at t k.owned)
      go (raise e) t k = k

  Safe-if : {A : Type 0} (b : Bool) {m n : Act A} → Safe m → Safe n → Safe (if b then m else n)
  Safe-if true p q = p
  Safe-if false p q = q

  module _ (ari : Ari) where
    Safe-tell : (c : AriCall) → Spared target c → Safe (tell ari c)
    Safe-tell c k = record { at = λ s h. Safely-noted c s k h }

    Safe-succeeds : (c : AriCall) → Spared target c → Safe (succeeds ari c)
    Safe-succeeds c k = record { at = λ s h. Safely-noted c s k h }

    Safe-made : (c : AriCall) → Spared target c → Safe (made ari c)
    Safe-made c k = record { at = λ s h. Safely-noted c s k h }

    Safe-hangup :
        (c : Option String) → (c ≢ some target) → Safe (when_named c (λ x. tell ari (hangup x)))
    unfolding when_named
    Safe-hangup none n = Safe-pure tt
    Safe-hangup (some c) n =
        Safe-if (str_eq c "") (Safe-pure tt) (Safe-tell (hangup c) (λ q. n (ap some q)))

    Safe-destroy : (b : Option String) → Safe (when_named b (λ x. tell ari (destroy_bridge x)))
    unfolding when_named
    Safe-destroy none = Safe-pure tt
    Safe-destroy (some b) = Safe-if (str_eq b "") (Safe-pure tt) (Safe-tell (destroy_bridge b) tt)

    Safe-enter : (b : Option String) → Safe (enter_bridge ari target b)
    unfolding enter_bridge
    Safe-enter none = Safe-pure none
    Safe-enter (some b) =
        Safe-if (str_eq b "") (Safe-pure none)
          (Safe-bind (Safe-succeeds (add_to_bridge b (target ∷ [])) tt) (λ _. Safe-pure (some b)))

    Safe-fresh : Safe (fresh_bridge ari target)
    unfolding fresh_bridge
    Safe-fresh = Safe-bind (Safe-made create_bridge tt) Safe-enter

    Safe-bridge : (given : Option String) → Safe (call_bridge ari target given)
    unfolding call_bridge
    Safe-bridge none = Safe-fresh
    Safe-bridge (some b) = Safe-if (str_eq b "") Safe-fresh (Safe-pure (some b))

    Safe-add : (c : String) → Safe (owning (λ r. (tt, add_channel l c r)))
    Safe-add c = record {
      at = λ s h. record {
        calls = [];
        log = refl;
        all = tt;
        owned = OwnedBy-add_channel l o l c s.registry h;
      };
    }

    Safe-join : (channel : String) (bridge : Option String) → Safe (join ari o l channel bridge)
    unfolding join failed
    Safe-join channel none = Safe-pure _
    Safe-join channel (some bridge) =
        Safe-bind (Safe-succeeds (add_to_bridge bridge (channel ∷ [])) tt) (λ joined.
          Safe-if joined (Safe-bind (Safe-add channel) (λ _. Safe-pure (taken bridge o)))
            (Safe-pure (refused "operator_bridge_failed" none)))

    Safe-seize :
        (channel : String) (given snoop_channel monitor_bridge agent_channel : Option String)
        → (snoop_channel ≢ some target)
        → (agent_channel ≢ some target)
        → Safe (seize ari o l target channel given snoop_channel monitor_bridge agent_channel)
    unfolding seize
    Safe-seize channel given snoop_channel monitor_bridge agent_channel n k =
        Safe-bind (Safe-hangup snoop_channel n) (λ _. Safe-bind (Safe-destroy monitor_bridge) (λ _.
          Safe-bind (Safe-hangup agent_channel k)
            (λ _. Safe-bind (Safe-bridge given) (Safe-join channel))))

module _ (ari : Ari) where
  -- Where the claim is granted, every call that a take-over then makes to the ARI client, on every
  -- path and also when the client raises, is made while the operator owns the call, and none of them
  -- hangs up the caller's channel (which is not the snoop's nor the agent's); and the operator owns
  -- the call afterwards.
  pub take_over_covers :
      (operator l target channel : String)
      (given snoop_channel monitor_bridge agent_channel : Option String) (s : Desk)
      → (claim l operator (target ∷ channel ∷ []) "takeover" s.registry).0 ≡ true
      → (snoop_channel ≢ some target)
      → (agent_channel ≢ some target)
      → let s' =
          (take_over ari operator l target channel given snoop_channel monitor_bridge agent_channel
            s).1 in
        (calls : List (AriCall × Registry)) × (s'.log ≡ calls ++ s.log)
        × All (Covered l operator target) calls
        × (owner_of l s'.registry ≡ some operator)
  unfolding take_over
  take_over_covers operator l target channel given snoop_channel monitor_bridge agent_channel s h n
        k =
      let t = record s {
        registry = (claim l operator (target ∷ channel ∷ []) "takeover" s.registry).1;
      } in
      let c =
        (Safe-seize l operator target ari channel given snoop_channel monitor_bridge agent_channel n
            k).at
          t (claim_names_owner l operator (target ∷ channel ∷ []) "takeover" s.registry h) in
      rw h (c.calls, c.log, c.all, c.owned)

  -- Where the claim is refused because someone else owns the call, a take-over calls nothing and
  -- changes nothing, and it says who owns the call.
  pub take_over_refused :
      (operator l target channel : String)
      (given snoop_channel monitor_bridge agent_channel : Option String) (s : Desk)
      → str_eq l "" ≡ false
      → (claim l operator (target ∷ channel ∷ []) "takeover" s.registry).0 ≡ false
      → take_over ari operator l target channel given snoop_channel monitor_bridge agent_channel s
        ≡ (ok (refused "already_owned" (owner_of l s.registry)), s)
  unfolding take_over
  take_over_refused operator l target channel given snoop_channel monitor_bridge agent_channel s n
        h =
      rw h (rw (claim_refused l operator (target ∷ channel ∷ []) "takeover" s.registry n h).0 refl)
