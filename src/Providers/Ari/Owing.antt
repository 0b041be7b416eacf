-- ===== src/Providers/Ari/Owing.antt =====
-- Actions of the ARI client that may make the bridge of the call: they leave it, and the legs of a list.
use owen_main.Common.{
  String, List, ◌∷◌, ◌≡◌, ◌≢◌, refl, sym, ◌∙◌, inl, inr, ◌⊎◌, Bool, true, false, Option, none, some,
  In, if◌then◌else◌,
}
use owen_main.Providers.Ari.Client.{
  Platform, Client, Act, ◌>>=◌, pure, rescue, rescued, continue, Answer, returned, stopped, failure,
  cancelled, create_mixing, landed, sent, Lands,
}
use owen_main.Providers.Ari.Channels.{bridge_of, create_bridge}
use owen_main.Providers.Ari.Resources.{
  Resource, channel_leg, mixing_bridge, live, live-bridge, Mine,
}
use owen_main.Providers.Ari.Keeping.{Kept, Keeps}

-- From `s` to `s'` nothing is left but some legs and the bridge that the call remembers.
pub record Owed (p : Platform) (legs : List String) (s s' : Client) : Type 0 where
  pub left :
      Lands p
      → (r : Resource) → live p r s'.requests ≡ true
      → (live p r s.requests ≡ true)
        ⊎ (Mine legs r ⊎ ((b : String) × (r ≡ mixing_bridge b) × (s'.bridge_id ≡ some b)))
  pub watchers : s'.queues.watchers ≡ s.queues.watchers

pub record Owes {A : Type 0} (p : Platform) (legs : List String) (m : Act A) : Type 0 where
  pub at : (s : Client) → Owed p legs s (m s).1

module _ {p : Platform} {legs : List String} where
  Kept-Owed : {s s' : Client} → Kept p legs s s' → Owed p legs s s'
  Kept-Owed k = record {
    left = λ c r h. elim (k.left r h) [ inl a ↦ inl a | inr a ↦ inr (inl a) ];
    watchers = k.watchers;
  }

  Kept-then : {s t u : Client} → Kept p legs s t → Owed p legs t u → Owed p legs s u
  Kept-then k o = record {
    left = λ c r h. elim (o.left c r h) [
      | inl a ↦ elim (k.left r a) [ inl b ↦ inl b | inr b ↦ inr (inl b) ]
      | inr a ↦ inr a
    ];
    watchers = o.watchers ∙ k.watchers;
  }

  Owed-then : {s t u : Client} → Owed p legs s t → Kept p legs t u → Owed p legs s u
  Owed-then o k = record {
    left = λ c r h. elim (k.left r h) [
      | inl a ↦ elim (o.left c r a) [
        | inl b ↦ inl b
        | inr b ↦ elim b [ inl d ↦ inr (inl d) | inr d ↦ inr (inr (d.0, d.1, k.bridge ∙ d.2)) ]
      ]
      | inr a ↦ inr (inl a)
    ];
    watchers = k.watchers ∙ o.watchers;
  }

  pub Owes-Keeps : {A : Type 0} (m : Act A) → Keeps p legs m → Owes p legs m
  Owes-Keeps m k = record { at = λ s. Kept-Owed (k.at s) }

  pub Owes-bind :
      {A B : Type 0} (m : Act A) (f : A → Act B)
      → Keeps p legs m
      → ((a : A) → Owes p legs (f a))
      → Owes p legs (m >>= f)
  Owes-bind {A} m f km kf = record { at = λ s. go s (m s).0 (m s).1 (km.at s) }
    where
      go :
          (s : Client) (a : Answer A) (s' : Client)
          → Kept p legs s s'
          → Owed p legs s (continue a f s').1
      go s (returned a) s' k = Kept-then k ((kf a).at s')
      go s (stopped t) s' k = Kept-Owed k

  pub Owes-if :
      {A : Type 0} (b : Bool) (m n : Act A)
      → Owes p legs m
      → Owes p legs n
      → Owes p legs (if b then m else n)
  Owes-if true m n km kn = km
  Owes-if false m n km kn = kn

  pub Owes-rescue :
      {A : Type 0} (m : Act A) (a : A) → Owes p legs m → Owes p legs (rescue m (pure a))
  Owes-rescue {A} m a km = record { at = λ s. go s (m s).0 (m s).1 (km.at s) }
    where
      go :
          (s : Client) (r : Answer A) (s' : Client)
          → Owed p legs s s'
          → Owed p legs s (rescued r (pure a) s').1
      go s (returned a) s' k = k
      go s (stopped failure) s' k = k
      go s (stopped cancelled) s' k = k

  -- The bridge is made, remembered and used.
  pub Owes-bridge :
      {A : Type 0} (f : Option String → Act A) (rest : String → Act A)
      → Keeps p legs (f none)
      → ((b : String) → f (some b) ≡ (λ s. rest b (record s { bridge_id = some b })))
      → ((b : String) → Keeps p legs (rest b))
      → Owes p legs (create_bridge p >>= f)
  unfolding create_bridge
  Owes-bridge {A} f rest kn e kr = record {
    at = λ s. landing s (p.cuts s.requests create_mixing) refl;
  }
    where
      made :
          (s : Client) (b : String)
          → bridge_of (p.reply s.requests create_mixing) ≡ some b
          → Owed p legs s (record s { requests = create_mixing ∷ s.requests; bridge_id = some b })
      made s b h = record {
        left = λ c r k. elim (live-bridge p r s.requests k) [
          | inl a ↦ inl a
          | inr a ↦ inr (inr (a.0, a.1, sym h ∙ a.2))
        ];
        watchers = refl;
      }

      failed :
          (s : Client)
          → bridge_of (p.reply s.requests create_mixing) ≡ none
          → Owed p legs s (record s { requests = create_mixing ∷ s.requests })
      failed s h = record {
        left = λ c r k. elim (live-bridge p r s.requests k) [
          | inl a ↦ inl a
          | inr a ↦ cc (sym h ∙ a.2)
        ];
        watchers = refl;
      }

      go :
          (s : Client) (o : Option String)
          → bridge_of (p.reply s.requests create_mixing) ≡ o
          → Owed p legs s (f o (record s { requests = create_mixing ∷ s.requests })).1
      go s none h =
          Owed-then (failed s h) (kn.at (record s { requests = create_mixing ∷ s.requests }))
      go s (some b) h = rw (e b) (
          Owed-then (made s b h)
            ((kr b).at (record s { requests = create_mixing ∷ s.requests; bridge_id = some b })))

      landing :
          (s : Client) (cut : Bool)
          → p.cuts s.requests create_mixing ≡ cut
          → Owed p legs s
              (((λ t. (landed cut (p.reply t.requests create_mixing), sent create_mixing t))
                  >>= (λ reply. pure (bridge_of reply))
                  >>= f)
                s).1
      landing s false q = go s (bridge_of (p.reply s.requests create_mixing)) refl
      landing s true q = record {
        left = λ c r k. cc (q, c s.requests create_mixing refl);
        watchers = refl;
      }

  -- When the legs and the bridge of the call are gone, what is left was there before.
  pub settled :
      {s s' : Client} (r : Resource)
      → Lands p
      → Owed p legs s s'
      → ((c : String) → In c legs → r ≢ channel_leg c)
      → ((b : String) → s'.bridge_id ≡ some b → r ≢ mixing_bridge b)
      → live p r s'.requests ≡ true
      → live p r s.requests ≡ true
  settled r calm o l b h = elim (o.left calm r h) [
    | inl k ↦ k
    | inr k ↦ elim k [ inl m ↦ absurd (not_mine r m l) | inr m ↦ absurd (b m.0 m.2 m.1) ]
  ]
    where
      not_mine : (r : Resource) → Mine legs r → ((c : String) → In c legs → r ≢ channel_leg c) → ⊥
      not_mine (channel_leg c) m l = l c m refl
      not_mine (mixing_bridge b) m l = m
