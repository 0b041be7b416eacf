-- ===== src/Providers/Ari/Keeping.antt =====
-- Actions of the ARI client that leave nothing behind but legs of a list, touch neither the bridge of
-- the call nor the watchers of channels: rules for each way in which an action is built.
use owen_main.Common.{
  ℕ, String, List, [], ◌∷◌, ◌≡◌, refl, sym, ap, ◌∙◌, inl, inr, ◌⊎◌, Bool, true, false, Option, none,
  some, In, contains, str_eq, eq_iff, Bool-cases, arith, if◌then◌else◌,
}
use owen_main.Common.Json.{Dict}
use owen_main.Flows.Dtmf.{register_playback, unregister_playback}
use owen_main.Providers.Ari.Client.{
  Platform, Client, Act, ◌>>=◌, pure, gets, waiting, on_queues, note_dial, rescue, rescued,
  ensuring, continue, send, ask, tell, new_hex, Answer, returned, stopped, failure, cancelled,
  Arrival, Request, Originate, originate,
}
use owen_main.Providers.Ari.Resources.{
  Resource, channel_leg, mixing_bridge, Granted, live, modest, live-modest, live-originate, Mine,
}

-- From `s` to `s'`.
pub record Kept (p : Platform) (legs : List String) (s s' : Client) : Type 0 where
  pub left :
      (r : Resource) → live p r s'.requests ≡ true → (live p r s.requests ≡ true) ⊎ Mine legs r
  pub bridge : s'.bridge_id ≡ s.bridge_id
  pub watchers : s'.queues.watchers ≡ s.queues.watchers
  pub grown : (q : Request) → Granted p q s.requests → Granted p q s'.requests

pub record Keeps {A : Type 0} (p : Platform) (legs : List String) (m : Act A) : Type 0 where
  pub at : (s : Client) → Kept p legs s (m s).1

module _ {p : Platform} {legs : List String} where
  pub Kept-refl : (s : Client) → Kept p legs s s
  Kept-refl s = record { left = λ r h. inl h; bridge = refl; watchers = refl; grown = λ q g. g }

  pub Kept-trans : {s t u : Client} → Kept p legs s t → Kept p legs t u → Kept p legs s u
  Kept-trans a b = record {
    left = λ r h. elim (b.left r h) [ inl k ↦ a.left r k | inr k ↦ inr k ];
    bridge = b.bridge ∙ a.bridge;
    watchers = b.watchers ∙ a.watchers;
    grown = λ q g. b.grown q (a.grown q g);
  }

  pub Keeps-pure : {A : Type 0} (a : A) → Keeps p legs (pure a)
  Keeps-pure a = record { at = Kept-refl }

  pub Keeps-gets : {A : Type 0} (f : Client → A) → Keeps p legs (gets f)
  Keeps-gets f = record { at = Kept-refl }

  pub Keeps-waiting :
      {A : Type 0} (f : List Arrival → Answer A × List Arrival) → Keeps p legs (waiting f)
  Keeps-waiting f = record {
    at = λ s. record { left = λ r h. inl h; bridge = refl; watchers = refl; grown = λ q g. g };
  }

  pub Keeps-note_dial : (d : Dict) → Keeps p legs (note_dial d)
  Keeps-note_dial d = record {
    at = λ s. record { left = λ r h. inl h; bridge = refl; watchers = refl; grown = λ q g. g };
  }

  pub Keeps-new_hex : Keeps p legs (new_hex p)
  Keeps-new_hex = record {
    at = λ s. record { left = λ r h. inl h; bridge = refl; watchers = refl; grown = λ q g. g };
  }

  pub Keeps-register : (id : String) → Keeps p legs (on_queues (register_playback id))
  unfolding register_playback
  Keeps-register id = record {
    at = λ s. record { left = λ r h. inl h; bridge = refl; watchers = refl; grown = λ q g. g };
  }

  pub Keeps-unregister : (id : String) → Keeps p legs (on_queues (unregister_playback id))
  unfolding unregister_playback
  Keeps-unregister id = record {
    at = λ s. record { left = λ r h. inl h; bridge = refl; watchers = refl; grown = λ q g. g };
  }

  modest-Kept :
      (q : Request) (s : Client)
      → modest q ≡ true
      → Kept p legs s (record s { requests = q ∷ s.requests })
  modest-Kept q s m = record {
    left = λ r h. inl (live-modest p r q s.requests m h).1;
    bridge = refl;
    watchers = refl;
    grown = λ q g. inr g;
  }

  pub Keeps-tell : (q : Request) → modest q ≡ true → Keeps p legs (tell p q)
  Keeps-tell q m = record { at = λ s. modest-Kept q s m }

  pub Keeps-send : (q : Request) → modest q ≡ true → Keeps p legs (send p q)
  Keeps-send q m = record { at = λ s. modest-Kept q s m }

  pub Keeps-ask : (q : Request) → modest q ≡ true → Keeps p legs (ask p q)
  Keeps-ask q m = record { at = λ s. modest-Kept q s m }

  pub Keeps-originate :
      (o : Originate) (c : String) → o.leg ≡ some c → In c legs → Keeps p legs (ask p (originate o))
  Keeps-originate o c e i = record {
    at = λ s. record {
      left = λ r h. live-originate p legs r o c s.requests e i h;
      bridge = refl;
      watchers = refl;
      grown = λ q g. inr g;
    };
  }

  pub Keeps-if :
      {A : Type 0} (b : Bool) (m n : Act A)
      → Keeps p legs m
      → Keeps p legs n
      → Keeps p legs (if b then m else n)
  Keeps-if true m n km kn = km
  Keeps-if false m n km kn = kn

  pub Keeps-bind :
      {A B : Type 0} (m : Act A) (f : A → Act B)
      → Keeps p legs m
      → ((a : A) → Keeps p legs (f a))
      → Keeps p legs (m >>= f)
  Keeps-bind {A} m f km kf = record { at = λ s. go s (m s).0 (m s).1 (km.at s) }
    where
      go :
          (s : Client) (a : Answer A) (s' : Client)
          → Kept p legs s s'
          → Kept p legs s (continue a f s').1
      go s (returned a) s' k = Kept-trans k ((kf a).at s')
      go s (stopped t) s' k = k

  pub Keeps-rescue :
      {A : Type 0} (m h : Act A) → Keeps p legs m → Keeps p legs h → Keeps p legs (rescue m h)
  Keeps-rescue {A} m h km kh = record { at = λ s. go s (m s).0 (m s).1 (km.at s) }
    where
      go :
          (s : Client) (a : Answer A) (s' : Client)
          → Kept p legs s s'
          → Kept p legs s (rescued a h s').1
      go s (returned a) s' k = k
      go s (stopped failure) s' k = Kept-trans k (kh.at s')
      go s (stopped cancelled) s' k = k

  pub Keeps-ensuring :
      {A : Type 0} (m : Act A) (c : Act (Unit {0}))
      → Keeps p legs m
      → Keeps p legs c
      → Keeps p legs (ensuring m c)
  Keeps-ensuring m c km kc = record { at = λ s. Kept-trans (km.at s) (kc.at (m s).1) }

-- With no legs of its own, nothing is left.
pub Kept-nothing :
    (p : Platform) (s s' : Client) (r : Resource)
    → Kept p [] s s'
    → live p r s'.requests ≡ true
    → live p r s.requests ≡ true
unfolding contains
Kept-nothing p s s' r k h = elim (k.left r h) [ inl a ↦ a | inr a ↦ absurd (none_mine r a) ]
  where
    none_mine : (r : Resource) → Mine [] r → ⊥
    none_mine (channel_leg c) m = cc m
    none_mine (mixing_bridge b) m = m

pub ruleset keeps_rules = (
  Keeps-pure, Keeps-gets, Keeps-waiting, Keeps-note_dial, Keeps-new_hex, Keeps-register,
  Keeps-unregister, Keeps-tell, Keeps-send, Keeps-ask, Keeps-if, Keeps-bind, Keeps-rescue,
  Keeps-ensuring, refl,
)
