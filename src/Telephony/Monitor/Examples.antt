-- ===== src/Telephony/Monitor/Examples.antt =====
-- A take-over of a call that nobody owns, and one of a call that someone else owns.
use owen_main.Common.{
  String, List, [], ◌∷◌, ◌++◌, ◌≡◌, ◌≢◌, refl, true, false, none, some, ok, raise, external, All,
  eq_iff, str_eq,
}
use mathlib.Core.Option.{some_inj}
use owen_main.Common.Json.{Value, dict, field, end, str}
use owen_main.Common.Assoc.{lookup}
use owen_main.Telephony.Ownership.{Registry, claim, claim_as, owner_of}
use owen_main.Telephony.Ownership.Tracked.{no_calls}
use owen_main.Telephony.Monitor.Desk.{Ari, AriCall, Desk}
use owen_main.Telephony.Monitor.{take_over}
use owen_main.Telephony.Monitor.Takeover.{Covered, take_over_covers}

-- Every call succeeds.
abbrev obliging : Ari
obliging = record {
  told = λ h c. ok tt;
  succeeded = λ h c. ok true;
  created = λ h c. ok (some "bridge");
}

abbrev quiet_desk : Desk
quiet_desk = record { registry = no_calls; log = [] }

abbrev held_desk : Desk
held_desk = record {
  registry = record {
    calls = ("c1", record { owner = "bo"; channels = []; reason = "takeover" }) ∷ [];
    channel_calls = [];
  };
  log = [];
}

apart : (a b : String) → str_eq a b ≡ false → some a ≢ some b
apart a b h q = cc (h, (eq_iff a b).1 (some_inj.0 q))

take_over_covers_example :
    let s' =
      (take_over obliging "ana" "c1" "caller" "leg" none
        (some "snoop")
        none
        (some "agent")
        quiet_desk).1 in
    (calls : List (AriCall × Registry)) × (s'.log ≡ calls ++ [])
    × All (Covered "c1" "ana" "caller") calls
    × (owner_of "c1" s'.registry ≡ some "ana")
unfolding claim claim_as lookup
take_over_covers_example =
    take_over_covers obliging "ana" "c1" "caller" "leg" none (some "snoop") none (some "agent")
      quiet_desk refl (apart "snoop" "caller" refl) (apart "agent" "caller" refl)

-- Every call succeeds but those that create something.
abbrev creating_nothing : Ari
creating_nothing = record {
  told = λ h c. ok tt;
  succeeded = λ h c. ok true;
  created = λ h c. raise external;
}

abbrev phone_up : List Value
phone_up =
    dict
      (field "type" (str "StasisStart") (field "channel" (dict (field "id" (str "leg") end)) end))
    ∷ []
