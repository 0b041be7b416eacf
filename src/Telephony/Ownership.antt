-- ===== src/Telephony/Ownership.antt =====
-- backend/app/telephony/ownership.py: the registry of the calls that a human owns. Channels and
-- linkedids are texts; the time of a claim is left out, and `channels` holds each channel once.
use owen_main.Common.{
  String, List, [], ◌∷◌, ◌++◌, Bool, true, false, Option, none, some, contains, str_eq,
  if◌then◌else◌,
}
use owen_main.Common.Assoc.{lookup, insert, delete, insert_all, delete_all}
pub mod Operations
pub mod Held
pub mod Tracked
pub mod Claims
mod Examples

pub record Ownership : Type 0 where
  pub owner : String
  pub channels : List String
  pub reason : String

-- `_calls` and `_channels`.
pub record Registry : Type 0 where
  pub calls : List (String × Ownership)
  pub channel_calls : List (String × String)

-- `own.channels.add`
unfoldable pub add_to_set : String → List String → List String
add_to_set c cs = if contains c cs then cs else cs ++ (c ∷ [])

unfoldable pub add_all : List String → List String → List String
unfolding add_to_set
add_all [] cs = cs
add_all (d ∷ ds) cs = add_all ds (add_to_set d cs)

-- `for ch in channels: if ch`
unfoldable pub named : List String → List String
named [] = []
named (c ∷ cs) = let rest = named cs in if str_eq c "" then rest else c ∷ rest

-- The claim as it is written, for the record that exists or a new one.
unfoldable pub write_claim : String → List String → Ownership → Registry → Registry
unfolding insert insert_all add_all
write_claim linkedid cs own r = record {
  calls = insert linkedid (record own { channels = add_all cs own.channels }) r.calls;
  channel_calls = insert_all cs linkedid r.channel_calls;
}

unfoldable pub claim_as :
    String → String → List String → String → Option Ownership → Registry → Bool × Registry
unfolding write_claim
claim_as linkedid owner cs reason none r =
    (true, write_claim linkedid cs (record { owner = owner; channels = []; reason = reason }) r)
claim_as linkedid owner cs reason (some own) r =
    if str_eq own.owner owner then (true, write_claim linkedid cs own r) else (false, r)

unfoldable pub claim : String → String → List String → String → Registry → Bool × Registry
unfolding claim_as lookup named
claim linkedid owner channels reason r =
    if str_eq linkedid ""
    then (false, r)
    else claim_as linkedid owner (named channels) reason (lookup linkedid r.calls) r

unfoldable pub attach : String → String → Option Ownership → Registry → Registry
unfolding write_claim
attach linkedid channel none r = r
attach linkedid channel (some own) r =
    if str_eq channel "" then r else write_claim linkedid (channel ∷ []) own r

unfoldable pub add_channel : String → String → Registry → Registry
unfolding attach lookup
add_channel linkedid channel r = attach linkedid channel (lookup linkedid r.calls) r

unfoldable pub let_go : String → Option Ownership → Registry → Registry
unfolding delete delete_all
let_go linkedid none r = r
let_go linkedid (some own) r = record {
  calls = delete linkedid r.calls;
  channel_calls = delete_all own.channels r.channel_calls;
}

unfoldable pub release : String → Registry → Registry
unfolding let_go lookup
release linkedid r = let_go linkedid (lookup linkedid r.calls) r

owner_in : Option Ownership → Option String
owner_in none = none
owner_in (some own) = some own.owner

unfoldable pub owner_of : String → Registry → Option String
unfolding owner_in lookup
owner_of linkedid r = owner_in (lookup linkedid r.calls)

present : Option Ownership → Bool
present none = false
present (some own) = true

unfoldable pub is_owned : String → Registry → Bool
unfolding present lookup
is_owned linkedid r = present (lookup linkedid r.calls)

unfoldable pub linkedid_of_channel : String → Registry → Option String
unfolding lookup
linkedid_of_channel channel r = lookup channel r.channel_calls

owned_call : Option String → Registry → Bool
unfolding is_owned
owned_call none r = false
owned_call (some linkedid) r = is_owned linkedid r

-- The question that the ARI client asks before it changes a channel.
unfoldable pub is_channel_owned : String → Registry → Bool
unfolding owned_call linkedid_of_channel
is_channel_owned channel r = owned_call (linkedid_of_channel channel r) r

unfoldable pub clear : Registry → Registry
clear r = record { calls = []; channel_calls = [] }
