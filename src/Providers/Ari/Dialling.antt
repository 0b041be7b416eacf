-- ===== src/Providers/Ari/Dialling.antt =====
-- The parts of a dial: which of them leave nothing but the leg, and which the bridge.
use owen_main.Common.{
  ℕ, String, List, [], ◌∷◌, refl, Bool, true, false, Option, none, some, In, if◌then◌else◌,
}
use owen_main.Providers.Ari.Client.{Platform, Act, ◌>>=◌, ◌>>◌, pure, waiting, note_dial}
use owen_main.Providers.Ari.Channels.{
  create_bridge, add_to_bridge, named_channels, join_all, record_bridge, moh_start, moh_stop,
}
use owen_main.Providers.Ari.Waits.{await_bridge_end}
use owen_main.Providers.Ari.Dial.{given, when_some, when, talk, dial_ringing, dial_body}
use owen_main.Providers.Ari.Keeping.{Keeps, Keeps-originate, keeps_rules}
use owen_main.Providers.Ari.Owing.{Owes, Owes-Keeps, Owes-bind, Owes-if, Owes-bridge}

module _ {p : Platform} {legs : List String} where
  pub when-Keeps : (b : Bool) (m : Act (Unit {0})) → Keeps p legs m → Keeps p legs (when b m)
  unfolding when
  when-Keeps true m k = k
  when-Keeps false m k = search keeps_rules

  pub when_some-Keeps :
      (o : Option String) (f : String → Act (Unit {0}))
      → ((c : String) → Keeps p legs (f c))
      → Keeps p legs (when_some o f)
  unfolding when_some
  when_some-Keeps o f k = go (given o)
    where
      go :
          (g : Option String)
          → Keeps p legs (elim g as (λ _. Act (Unit {0})) [ none ↦ pure tt | some s ↦ f s ])
      go none = search keeps_rules
      go (some c) = k c

  pub moh_start-Keeps : (channel : String) → Keeps p legs (moh_start p channel)
  unfolding moh_start
  moh_start-Keeps channel = search keeps_rules

  pub moh_stop-Keeps : (channel : String) → Keeps p legs (moh_stop p channel)
  unfolding moh_stop
  moh_stop-Keeps channel = search keeps_rules

  pub record_bridge-Keeps : (bridge name : String) → Keeps p legs (record_bridge p bridge name)
  unfolding record_bridge
  record_bridge-Keeps bridge name = search keeps_rules

  pub add_to_bridge-Keeps :
      (bridge : String) (cs : List String) → Keeps p legs (add_to_bridge p bridge cs)
  unfolding add_to_bridge join_all
  add_to_bridge-Keeps bridge cs = go (named_channels p cs)
    where
      go : (l : List String) → Keeps p legs (join_all p bridge l)
      go [] = search keeps_rules
      go (c ∷ cs) = search keeps_rules

  talk-Owes :
      (channel out : String) (record_name : Option String)
      → Owes p legs (create_bridge p >>= talk p channel out record_name)
  unfolding talk
  talk-Owes channel out record_name =
      Owes-bridge (talk p channel out record_name)
        (λ b. add_to_bridge p b (channel ∷ out ∷ []) >>= λ joined.
          if joined
          then (do
            when_some record_name (record_bridge p b)
            info ← waiting (await_bridge_end p channel out)
            note_dial info
            pure "answered")
          else pure "failed")
        (search keeps_rules) (λ b. refl)
        (λ b.
          search (keeps_rules, add_to_bridge-Keeps, when_some-Keeps, record_bridge-Keeps) depth 12)

  ringing-Owes :
      (channel out : String) (record_name : Option String) (hold_music : Bool)
      → Owes p legs (dial_ringing p channel out record_name hold_music)
  unfolding dial_ringing
  ringing-Owes channel out record_name hold_music =
      search (keeps_rules, Owes-bind, Owes-if, Owes-Keeps, talk-Owes, when-Keeps, moh_stop-Keeps)
        depth 12

  pub body-Owes :
      (channel out number : String) (caller_id : Option String) (timeout : ℕ)
      (record_name : Option String) (hold_music : Bool)
      → In out legs
      → Owes p legs (dial_body p channel out number caller_id timeout record_name hold_music)
  unfolding dial_body
  body-Owes channel out number caller_id timeout record_name hold_music i =
      search
        (
          keeps_rules, Keeps-originate, Owes-bind, Owes-if, Owes-Keeps, ringing-Owes, when-Keeps,
          moh_start-Keeps,
        )
        depth 12
