-- ===== src/Providers/Ari/Resources.antt =====
-- What the ARI client owes to Asterisk: the legs and bridges that it asked for and has not asked to be
-- destroyed since, and rules for the actions that leave nothing but some legs of their own.
use owen_main.Common.{
  String, List, [], ◌∷◌, ◌≡◌, ◌≢◌, refl, sym, ap, inl, inr, ◌⊎◌, Bool, true, false, Option, none,
  some, In, str_eq, eq_iff, arith, if◌then◌else◌,
}
use owen_main.Providers.Ari.Client.{
  Platform, Request, Originate, originate, create_mixing, delete_channel, delete_bridge,
}
use owen_main.Providers.Ari.Channels.{bridge_of}

pub data Resource : Type 0 where
  channel_leg mixing_bridge : String → Resource

is_leg : String → Option String → Bool
is_leg c none = false
is_leg c (some l) = str_eq l c

-- The request asks for the resource, given the requests before it.
unfoldable pub opens : Platform → Resource → Request → List Request → Bool
unfolding is_leg bridge_of
opens p (channel_leg c) (originate o) before = is_leg c o.leg
opens p (mixing_bridge b) create_mixing before = is_leg b (bridge_of (p.reply before create_mixing))
opens _ _ _ _ = false

unfoldable pub closes : Resource → Request → Bool
closes (channel_leg c) (delete_channel d) = str_eq d c
closes (mixing_bridge b) (delete_bridge d) = str_eq d b
closes _ _ = false

-- It was asked for, and not asked to be destroyed since. The latest request comes first.
unfoldable pub live : Platform → Resource → List Request → Bool
unfolding opens closes
live p r [] = false
live p r (q ∷ before) =
    let rest = live p r before in
    if opens p r q before then true else if closes r q then false else rest

-- Any request but those two asks for nothing that is to be destroyed.
abbrev pub modest : Request → Bool
modest (originate o) = false
modest create_mixing = false
modest _ = true

abbrev pub Mine : List String → Resource → Type 0
Mine legs (channel_leg c) = In c legs
Mine legs (mixing_bridge b) = ⊥

opens-modest :
    (p : Platform) (r : Resource) (q : Request) (before : List Request)
    → modest q ≡ true
    → opens p r q before ≡ false
unfolding opens
opens-modest p (channel_leg c) (originate o) before m = cc m
opens-modest p (mixing_bridge c) create_mixing before m = cc m
opens-modest p (channel_leg c) q before m = refl
opens-modest p (mixing_bridge c) q before m = refl

-- The request was made, and accepted.
abbrev pub Granted : Platform → Request → List Request → Type 0
Granted p q [] = ⊥
Granted p q (r ∷ before) = ((r ≡ q) × (p.accepts before r ≡ true)) ⊎ Granted p q before

leg_name : {c d : String} → channel_leg c ≡ channel_leg d → c ≡ d
leg_name e = cc e

bridge_name : {c d : String} → mixing_bridge c ≡ mixing_bridge d → c ≡ d
bridge_name e = cc e

module _ (p : Platform) where
  live-cons :
      (r : Resource) (q : Request) (before : List Request)
      → live p r (q ∷ before) ≡ true
      → (opens p r q before ≡ true) ⊎ ((closes r q ≡ false) × (live p r before ≡ true))
  unfolding live
  live-cons r q before h = ground arith

  pub live-modest :
      (r : Resource) (q : Request) (before : List Request)
      → modest q ≡ true
      → live p r (q ∷ before) ≡ true
      → (closes r q ≡ false) × (live p r before ≡ true)
  live-modest r q before m h = elim (live-cons r q before h) [
    | inl o ↦ cc (o, opens-modest p r q before m)
    | inr k ↦ k
  ]

  pub live-originate :
      (legs : List String) (r : Resource) (o : Originate) (c : String) (before : List Request)
      → o.leg ≡ some c
      → In c legs
      → live p r (originate o ∷ before) ≡ true
      → (live p r before ≡ true) ⊎ Mine legs r
  unfolding opens closes
  live-originate legs (channel_leg d) o c before e i h =
      elim (live-cons (channel_leg d) (originate o) before h) [
        | inl k ↦ inr (rw ((eq_iff c d).0 (rw e at k)) at i)
        | inr k ↦ inl k.1
      ]
  live-originate legs (mixing_bridge b) o c before e i h =
      elim (live-cons (mixing_bridge b) (originate o) before h) [ inl k ↦ cc k | inr k ↦ inl k.1 ]

  -- A bridge that is asked for is there only if the reply names it.
  pub live-bridge :
      (r : Resource) (before : List Request)
      → live p r (create_mixing ∷ before) ≡ true
      → (live p r before ≡ true)
        ⊎ ((b : String) × (r ≡ mixing_bridge b)
            × (bridge_of (p.reply before create_mixing) ≡ some b))
  unfolding opens closes is_leg
  live-bridge (channel_leg c) before h = elim (live-cons (channel_leg c) create_mixing before h) [
    | inl k ↦ cc k
    | inr k ↦ inl k.1
  ]
  live-bridge (mixing_bridge b) before h =
      elim (live-cons (mixing_bridge b) create_mixing before h) [
        | inl k ↦ inr (named (bridge_of (p.reply before create_mixing)) refl k)
        | inr k ↦ inl k.1
      ]
    where
      named :
          (o : Option String)
          → bridge_of (p.reply before create_mixing) ≡ o
          → is_leg b o ≡ true
          → (d : String) × (mixing_bridge b ≡ mixing_bridge d)
            × (bridge_of (p.reply before create_mixing) ≡ some d)
      named none e k = cc k
      named (some d) e k = (d, ap mixing_bridge (sym ((eq_iff d b).0 k)), e)

  -- What is still there was not what the request destroyed.
  pub live-deleted :
      (r : Resource) (c : String) (before : List Request)
      → live p r (delete_channel c ∷ before) ≡ true
      → (r ≢ channel_leg c) × (live p r before ≡ true)
  unfolding closes
  live-deleted (channel_leg d) c before h =
      let k = live-modest (channel_leg d) (delete_channel c) before refl h in
      (λ e. cc (k.0, (eq_iff c d).1 (leg_name (sym e))), k.1)
  live-deleted (mixing_bridge b) c before h =
      (λ e. cc e, (live-modest (mixing_bridge b) (delete_channel c) before refl h).1)

  pub live-destroyed :
      (r : Resource) (b : String) (before : List Request)
      → live p r (delete_bridge b ∷ before) ≡ true
      → (r ≢ mixing_bridge b) × (live p r before ≡ true)
  unfolding closes
  live-destroyed (mixing_bridge d) b before h =
      let k = live-modest (mixing_bridge d) (delete_bridge b) before refl h in
      (λ e. cc (k.0, (eq_iff b d).1 (bridge_name (sym e))), k.1)
  live-destroyed (channel_leg d) b before h =
      (λ e. cc e, (live-modest (channel_leg d) (delete_bridge b) before refl h).1)
