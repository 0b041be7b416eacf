-- ===== src/Telephony/Ownership/Claims.antt =====
-- What a claim that succeeds makes true, and what one that is refused leaves as it was.
use owen_main.Common.{
  String, List, [], ◌∷◌, ◌≡◌, refl, inl, inr, true, false, Option, none, some, contains, In, str_eq,
  eq_iff, Bool-cases, arith,
}
use owen_main.Common.Assoc.{lookup}
use owen_main.Telephony.Ownership.{
  Ownership, Registry, claim, claim_as, write_claim, named, owner_of, is_channel_owned,
  linkedid_of_channel, is_owned,
}
use owen_main.Telephony.Ownership.Operations.{claimed, lookup-claimed, channel_claimed}

-- A channel is found to be owned when it answers for a call that the registry has.
channel_owned :
    (c l : String) (own : Ownership) (r : Registry)
    → lookup c r.channel_calls ≡ some l
    → lookup l r.calls ≡ some own
    → is_channel_owned c r ≡ true
unfolding is_channel_owned linkedid_of_channel is_owned
channel_owned c l own r h e = rw h (rw e refl)

In-named : (c : String) (cs : List String) → In c cs → str_eq c "" ≡ false → In c (named cs)
unfolding named contains
In-named c [] h n = h
In-named c (d ∷ ds) h n = ground (arith, In-named c ds, eq_iff d c)

claimed_owns :
    (l c owner : String) (cs : List String) (own : Ownership) (r : Registry)
    → own.owner ≡ owner
    → (owner_of l (write_claim l cs own r) ≡ some owner)
      × (In c cs → is_channel_owned c (write_claim l cs own r) ≡ true)
unfolding owner_of
claimed_owns l c owner cs own r q = (
  rw (lookup-claimed l cs own r) (rw q refl),
  λ m.
      channel_owned c l (claimed cs own) (write_claim l cs own r) (channel_claimed c l cs own r m)
        (lookup-claimed l cs own r),
)

claim_as_owns :
    (l c owner : String) (cs : List String) (reason : String) (found : Option Ownership)
    (r : Registry)
    → (claim_as l owner cs reason found r).0 ≡ true
    → (owner_of l (claim_as l owner cs reason found r).1 ≡ some owner)
      × (In c cs → is_channel_owned c (claim_as l owner cs reason found r).1 ≡ true)
unfolding claim_as
claim_as_owns l c owner cs reason none r h = claimed_owns l c owner cs _ r refl
claim_as_owns l c owner cs reason (some own) r h = elim (Bool-cases (str_eq own.owner owner)) [
  | inl q ↦ rw q (claimed_owns l c owner cs own r ((eq_iff own.owner owner).0 q))
  | inr q ↦ cc (rw q at h)
]

-- A claim that succeeds makes the claimant the owner of the call, and makes every channel that it
-- names (and that is not empty) an owned one, which the ARI client will refuse to change.
pub claim_owns :
    (l owner : String) (cs : List String) (reason : String) (r : Registry) (c : String)
    → (claim l owner cs reason r).0 ≡ true
    → In c cs
    → str_eq c "" ≡ false
    → let r' = (claim l owner cs reason r).1 in
      (owner_of l r' ≡ some owner) × (is_channel_owned c r' ≡ true)
unfolding claim
claim_owns l owner cs reason r c h m n = elim (Bool-cases (str_eq l "")) [
  | inl q ↦ cc (rw q at h)
  | inr q ↦ rw q (
      let o = claim_as_owns l c owner (named cs) reason (lookup l r.calls) r (rw q at h) in
      (o.0, o.1 (In-named c cs m n)))
]

pub claim_names_owner :
    (l owner : String) (cs : List String) (reason : String) (r : Registry)
    → (claim l owner cs reason r).0 ≡ true
    → owner_of l (claim l owner cs reason r).1 ≡ some owner
unfolding claim
claim_names_owner l owner cs reason r h = elim (Bool-cases (str_eq l "")) [
  | inl q ↦ cc (rw q at h)
  | inr q ↦ rw q (claim_as_owns l "" owner (named cs) reason (lookup l r.calls) r (rw q at h)).0
]

refusal :
    (l owner : String) (cs : List String) (reason : String) (found : Option Ownership)
    (r : Registry)
    → lookup l r.calls ≡ found
    → (claim_as l owner cs reason found r).0 ≡ false
    → ((claim_as l owner cs reason found r).1 ≡ r)
      × ((o : String) × (owner_of l r ≡ some o) × (str_eq o owner ≡ false))
unfolding claim_as owner_of
refusal l owner cs reason none r e h = cc h
refusal l owner cs reason (some own) r e h = elim (Bool-cases (str_eq own.owner owner)) [
  | inl q ↦ cc (rw q at h)
  | inr q ↦ (rw q refl, (own.owner, rw e refl, q))
]

-- A claim of a call (with a linkedid) that is refused changes nothing, and is refused only because
-- someone else owns the call.
pub claim_refused :
    (l owner : String) (cs : List String) (reason : String) (r : Registry)
    → str_eq l "" ≡ false
    → (claim l owner cs reason r).0 ≡ false
    → ((claim l owner cs reason r).1 ≡ r)
      × ((o : String) × (owner_of l r ≡ some o) × (str_eq o owner ≡ false))
unfolding claim
claim_refused l owner cs reason r n h =
    rw n (refusal l owner (named cs) reason (lookup l r.calls) r refl (rw n at h))
