-- ===== src/Telephony/Ownership/Held.antt =====
-- An owned call keeps its owner until it is released.
use owen_main.Common.{
  String, List, [], ◌∷◌, ◌≡◌, ◌≢◌, refl, inl, inr, Option, none, some, str_eq, eq_iff, Bool-cases,
  arith, All,
}
use owen_main.Common.Assoc.{lookup, lookup-delete}
use owen_main.Telephony.Ownership.{
  Ownership, Registry, claim, claim_as, write_claim, add_channel, attach, release, let_go, named,
  owner_of,
}
use owen_main.Telephony.Ownership.Operations.{
  Operation, claiming, adding, releasing, apply, apply_all, lookup-write_claim,
}

abbrev pub OwnedBy : String → String → Registry → Type 0
OwnedBy l o r = owner_of l r ≡ some o

OwnedBy-write_claim :
    (l j o : String) (cs : List String) (own : Ownership) (r : Registry)
    → OwnedBy l o r
    → ((l ≡ j) → own.owner ≡ o)
    → OwnedBy l o (write_claim j cs own r)
unfolding owner_of
OwnedBy-write_claim l j o cs own r h k =
    rw (lookup-write_claim j l cs own r) (ground (arith, eq_iff j l))

-- The record of an owned call names its owner.
owner-lookup :
    (l j o : String) (found : Option Ownership) (own : Ownership) (r : Registry)
    → OwnedBy l o r
    → lookup j r.calls ≡ found
    → (l ≡ j)
    → found ≡ some own
    → own.owner ≡ o
unfolding owner_of
owner-lookup l j o found own r h e q f = cc (h, e, q, f)

absent-owner : (l j o : String) (r : Registry) → OwnedBy l o r → lookup j r.calls ≡ none → l ≢ j
unfolding owner_of
absent-owner l j o r h e q = cc (h, e, q)

OwnedBy-claim_as :
    (l o j owner : String) (cs : List String) (reason : String) (found : Option Ownership)
    (r : Registry)
    → OwnedBy l o r
    → lookup j r.calls ≡ found
    → OwnedBy l o (claim_as j owner cs reason found r).1
unfolding claim_as
OwnedBy-claim_as l o j owner cs reason none r h e =
    OwnedBy-write_claim l j o cs _ r h (λ q. absurd (absent-owner l j o r h e q))
OwnedBy-claim_as l o j owner cs reason (some own) r h e =
    elim (Bool-cases (str_eq own.owner owner)) [
      | inl q ↦ rw q (
          OwnedBy-write_claim l j o cs own r h
            (λ p. owner-lookup l j o (some own) own r h e p refl))
      | inr q ↦ rw q h
    ]

OwnedBy-claim :
    (l o j owner : String) (cs : List String) (reason : String) (r : Registry)
    → OwnedBy l o r
    → OwnedBy l o (claim j owner cs reason r).1
unfolding claim
OwnedBy-claim l o j owner cs reason r h = elim (Bool-cases (str_eq j "")) [
  | inl q ↦ rw q h
  | inr q ↦ rw q (OwnedBy-claim_as l o j owner (named cs) reason (lookup j r.calls) r h refl)
]

OwnedBy-attach :
    (l o j c : String) (found : Option Ownership) (r : Registry)
    → OwnedBy l o r
    → lookup j r.calls ≡ found
    → OwnedBy l o (attach j c found r)
unfolding attach
OwnedBy-attach l o j c none r h e = h
OwnedBy-attach l o j c (some own) r h e = elim (Bool-cases (str_eq c "")) [
  | inl q ↦ rw q h
  | inr q ↦ rw q (
      OwnedBy-write_claim l j o (c ∷ []) own r h
        (λ p. owner-lookup l j o (some own) own r h e p refl))
]

pub OwnedBy-add_channel :
    (l o j c : String) (r : Registry) → OwnedBy l o r → OwnedBy l o (add_channel j c r)
unfolding add_channel
OwnedBy-add_channel l o j c r h = OwnedBy-attach l o j c (lookup j r.calls) r h refl

OwnedBy-let_go :
    (l o j : String) (found : Option Ownership) (r : Registry)
    → j ≢ l
    → OwnedBy l o r
    → OwnedBy l o (let_go j found r)
unfolding let_go owner_of
OwnedBy-let_go l o j none r n h = h
OwnedBy-let_go l o j (some own) r n h = rw (lookup-delete j l r.calls) (ground (arith, eq_iff j l))

-- The operation releases another call, or none.
abbrev pub Spares : String → Operation → Type 0
Spares l (claiming _ _ _ _) = Unit
Spares l (adding _ _) = Unit
Spares l (releasing j) = j ≢ l

OwnedBy-apply :
    (l o : String) (op : Operation) (r : Registry)
    → Spares l op
    → OwnedBy l o r
    → OwnedBy l o (apply op r)
unfolding apply release
OwnedBy-apply l o (claiming j owner cs reason) r s h = OwnedBy-claim l o j owner cs reason r h
OwnedBy-apply l o (adding j c) r s h = OwnedBy-add_channel l o j c r h
OwnedBy-apply l o (releasing j) r s h = OwnedBy-let_go l o j (lookup j r.calls) r s h

-- A call that someone owns keeps that owner through any sequence of claims (by whomever), added
-- channels, and releases of other calls.
pub owned_until_released :
    (l o : String) (ops : List Operation) (r : Registry)
    → All (Spares l) ops
    → owner_of l r ≡ some o
    → owner_of l (apply_all ops r) ≡ some o
unfolding apply_all
owned_until_released l o [] r s h = h
owned_until_released l o (op ∷ ops) r s h =
    owned_until_released l o ops (apply op r) s.1 (OwnedBy-apply l o op r s.0 h)
