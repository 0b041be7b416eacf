-- ===== src/Telephony/Ownership/Tracked.antt =====
-- The two registries agree: what a claim makes true, and what a release leaves behind.
use owen_main.Common.{
  String, List, [], ◌∷◌, ◌≡◌, ◌≢◌, refl, sym, ap, ◌∙◌, ◌⊎◌, inl, inr, false, Option, none, some,
  ◌||◌, contains, contains-append, In, str_eq, eq_iff, Bool-cases, arith, eq_refl,
}
use mathlib.Core.Path.{subst}
use mathlib.Core.Option.{some_inj}
use owen_main.Common.Assoc.{lookup, lookup-delete, lookup-delete_all}
use owen_main.Telephony.Ownership.{
  Ownership, Registry, claim, claim_as, write_claim, add_all, add_to_set, add_channel, attach,
  release, let_go, named, linkedid_of_channel, is_owned,
}
use owen_main.Telephony.Ownership.Operations.{
  Operation, claiming, adding, releasing, apply, apply_all, claimed, lookup-claimed, lookup_other,
  channel_claimed, channel_other,
}

-- The channel is one of those that the record of the call holds.
abbrev pub Holds : Registry → String → String → Type 0
Holds r l c = (own : Ownership) × (lookup l r.calls ≡ some own) × In c own.channels

-- Each channel that answers for a call is held by the record of that call.
abbrev pub Tracked : Registry → Type 0
Tracked r = (c l : String) → linkedid_of_channel c r ≡ some l → Holds r l c

contains-add_to_set :
    (c d : String) (cs : List String) → contains c (add_to_set d cs) ≡ (str_eq d c || contains c cs)
unfolding add_to_set contains
contains-add_to_set c d cs = ground (arith, contains-append c cs (d ∷ []), eq_iff d c)

contains-add_all :
    (c : String) (ds cs : List String)
    → contains c (add_all ds cs) ≡ (contains c ds || contains c cs)
unfolding add_all contains
contains-add_all c [] cs = refl
contains-add_all c (d ∷ ds) cs =
    ground (arith, contains-add_all c ds (add_to_set d cs), contains-add_to_set c d cs)

-- What a claim writes still holds the channels that the record held.
In-claimed :
    (c : String) (cs : List String) (own o : Ownership) (found : Option Ownership)
    → (found ≡ some own) ⊎ (found ≡ none)
    → found ≡ some o
    → In c o.channels
    → In c (claimed cs own).channels
In-claimed c cs own o found (inl h) e m =
    contains-add_all c cs own.channels
    ∙ ground (arith, subst (λ x. In c x.channels) (some_inj.0 (sym e ∙ h)) m)
In-claimed c cs own o found (inr h) e m = cc (h, e)

Holds-write_claim :
    (c l j : String) (cs : List String) (own : Ownership) (r : Registry)
    → Holds r l c
    → (lookup j r.calls ≡ some own) ⊎ (lookup j r.calls ≡ none)
    → Holds (write_claim j cs own r) l c
Holds-write_claim c l j cs own r (o, e, m) k = elim (Bool-cases (str_eq j l)) [
  | inl q ↦
      subst (λ x. Holds (write_claim j cs own r) x c) ((eq_iff j l).0 q)
        (
          claimed cs own,
          lookup-claimed j cs own r,
          In-claimed c cs own o (lookup j r.calls) k
              (ap (λ x. lookup x r.calls) ((eq_iff j l).0 q) ∙ e) m,
        )
  | inr q ↦ (o, lookup_other l j cs own r q ∙ e, m)
]

Tracked-write_claim :
    (j : String) (cs : List String) (own : Ownership) (r : Registry)
    → Tracked r
    → (lookup j r.calls ≡ some own) ⊎ (lookup j r.calls ≡ none)
    → Tracked (write_claim j cs own r)
unfolding linkedid_of_channel
Tracked-write_claim j cs own r t k c l h = elim (Bool-cases (contains c cs)) [
  | inl q ↦
      subst (λ x. Holds (write_claim j cs own r) x c)
        (some_inj.0 (sym (channel_claimed c j cs own r q) ∙ h))
        (claimed cs own, lookup-claimed j cs own r, contains-add_all c cs own.channels ∙ rw q refl)
  | inr q ↦ Holds-write_claim c l j cs own r (t c l (sym (channel_other c j cs own r q) ∙ h)) k
]

Tracked-claim_as :
    (j owner : String) (cs : List String) (reason : String) (found : Option Ownership)
    (r : Registry)
    → Tracked r
    → lookup j r.calls ≡ found
    → Tracked (claim_as j owner cs reason found r).1
unfolding claim_as
Tracked-claim_as j owner cs reason none r t e = Tracked-write_claim j cs _ r t (inr e)
Tracked-claim_as j owner cs reason (some own) r t e = elim (Bool-cases (str_eq own.owner owner)) [
  | inl q ↦ rw q (Tracked-write_claim j cs own r t (inl e))
  | inr q ↦ rw q t
]

Tracked-claim :
    (j owner : String) (cs : List String) (reason : String) (r : Registry)
    → Tracked r
    → Tracked (claim j owner cs reason r).1
unfolding claim
Tracked-claim j owner cs reason r t = elim (Bool-cases (str_eq j "")) [
  | inl q ↦ rw q t
  | inr q ↦ rw q (Tracked-claim_as j owner (named cs) reason (lookup j r.calls) r t refl)
]

Tracked-attach :
    (j c : String) (found : Option Ownership) (r : Registry)
    → Tracked r
    → lookup j r.calls ≡ found
    → Tracked (attach j c found r)
unfolding attach
Tracked-attach j c none r t e = t
Tracked-attach j c (some own) r t e = elim (Bool-cases (str_eq c "")) [
  | inl q ↦ rw q t
  | inr q ↦ rw q (Tracked-write_claim j (c ∷ []) own r t (inl e))
]

-- A channel that still answers after a release answers for another call, as before.
channel-let_go :
    (c l j : String) (own : Ownership) (r : Registry)
    → linkedid_of_channel c (let_go j (some own) r) ≡ some l
    → (contains c own.channels ≡ false) × (linkedid_of_channel c r ≡ some l)
unfolding linkedid_of_channel let_go
channel-let_go c l j own r h =
    let e = sym (lookup-delete_all own.channels c r.channel_calls) ∙ h in
    elim (Bool-cases (contains c own.channels)) [ inl q ↦ cc (rw q at e) | inr q ↦ (q, rw q at e) ]

Holds-let_go :
    (c l j : String) (own : Ownership) (r : Registry)
    → Holds r l c
    → lookup j r.calls ≡ some own
    → contains c own.channels ≡ false
    → Holds (let_go j (some own) r) l c
unfolding let_go
Holds-let_go c l j own r (o, e, m) f q = elim (Bool-cases (str_eq j l)) [
  | inl p ↦ cc (
      sym q
      ∙ subst (λ x. In c x.channels)
          (some_inj.0 (sym e ∙ ap (λ x. lookup x r.calls) (sym ((eq_iff j l).0 p)) ∙ f)) m)
  | inr p ↦ (o, lookup-delete j l r.calls ∙ rw p e, m)
]

Tracked-let_go :
    (j : String) (found : Option Ownership) (r : Registry)
    → Tracked r
    → lookup j r.calls ≡ found
    → Tracked (let_go j found r)
Tracked-let_go j none r t e c l h = unfold let_go in t c l h
Tracked-let_go j (some own) r t e c l h =
    let (q, h') = channel-let_go c l j own r h in Holds-let_go c l j own r (t c l h') e q

Tracked-apply : (op : Operation) (r : Registry) → Tracked r → Tracked (apply op r)
unfolding apply add_channel release
Tracked-apply (claiming j owner cs reason) r t = Tracked-claim j owner cs reason r t
Tracked-apply (adding j c) r t = Tracked-attach j c (lookup j r.calls) r t refl
Tracked-apply (releasing j) r t = Tracked-let_go j (lookup j r.calls) r t refl

Tracked-apply_all : (ops : List Operation) (r : Registry) → Tracked r → Tracked (apply_all ops r)
unfolding apply_all
Tracked-apply_all [] r t = t
Tracked-apply_all (op ∷ ops) r t = Tracked-apply_all ops (apply op r) (Tracked-apply op r t)

abbrev pub no_calls : Registry
no_calls = record { calls = []; channel_calls = [] }

Tracked-no_calls : Tracked no_calls
unfolding linkedid_of_channel lookup
Tracked-no_calls c l h = cc h

released :
    (l : String) (found : Option Ownership) (r : Registry)
    → lookup l r.calls ≡ found
    → lookup l (let_go l found r).calls ≡ none
unfolding let_go
released l none r e = e
released l (some own) r e = lookup-delete l l r.calls ∙ rw (eq_refl l) refl

-- In every state that the operations reach from an empty registry, a release of a call leaves
-- nothing of it: it has no owner, and no channel answers for it.
pub release_leaves_nothing :
    (ops : List Operation) (l c : String)
    → let r = release l (apply_all ops no_calls) in
      (is_owned l r ≡ false) × (linkedid_of_channel c r ≢ some l)
unfolding release is_owned
release_leaves_nothing ops l c =
    let r = apply_all ops no_calls in
    let gone = released l (lookup l r.calls) r refl in
    let t =
      Tracked-let_go l (lookup l r.calls) r (Tracked-apply_all ops no_calls Tracked-no_calls)
        refl in
    (rw gone refl, λ h. cc (gone, (t c l h).1))
