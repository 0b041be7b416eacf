-- ===== src/Telephony/Ownership/Examples.antt =====
-- Two supervisors and two calls.
use owen_main.Common.{String, List, [], ◌∷◌, ◌≡◌, ◌≢◌, refl, false, some, eq_iff}
use owen_main.Telephony.Ownership.{Registry, release, owner_of, linkedid_of_channel, is_owned}
use owen_main.Telephony.Ownership.Operations.{Operation, claiming, adding, releasing, apply_all}
use owen_main.Telephony.Ownership.Held.{owned_until_released}
use owen_main.Telephony.Ownership.Tracked.{no_calls, release_leaves_nothing}

abbrev ana_owns : Registry
ana_owns = record {
  calls = ("c1", record { owner = "ana"; channels = "ch" ∷ []; reason = "takeover" }) ∷ [];
  channel_calls = ("ch", "c1") ∷ [];
}

abbrev busy_day : List Operation
busy_day =
    claiming "c1" "bo" ("ch" ∷ []) "takeover"
    ∷ claiming "c2" "bo" ("d" ∷ "" ∷ []) "takeover"
    ∷ adding "c1" "leg"
    ∷ releasing "c2"
    ∷ []

spares : ◌≢◌ {A = String} "c2" "c1"
spares q = cc ((eq_iff "c2" "c1").1 q)

owned_until_released_example : owner_of "c1" (apply_all busy_day ana_owns) ≡ some "ana"
unfolding owner_of
owned_until_released_example =
    owned_until_released "c1" "ana" busy_day ana_owns (tt, (tt, (tt, (spares, tt)))) refl

release_leaves_nothing_example :
    let r = release "c2" (apply_all busy_day no_calls) in
    (is_owned "c2" r ≡ false) × (linkedid_of_channel "d" r ≢ some "c2")
release_leaves_nothing_example = release_leaves_nothing busy_day "c2" "d"
