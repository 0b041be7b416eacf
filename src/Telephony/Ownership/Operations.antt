-- ===== src/Telephony/Ownership/Operations.antt =====
-- Sequences of the operations of backend/app/telephony/ownership.py, and what each operation does
-- to the owner of a call and to the call of a channel.
use owen_main.Common.{
  String, List, [], ◌∷◌, ◌≡◌, refl, ◌∙◌, true, false, some, contains, str_eq, if◌then◌else◌,
  eq_refl,
}
use owen_main.Common.Assoc.{lookup, lookup-insert, lookup-insert_all}
use owen_main.Telephony.Ownership.{
  Ownership, Registry, claim, write_claim, add_all, add_channel, release,
}

pub data Operation : Type 0 where
  claiming : String → String → List String → String → Operation
  adding : String → String → Operation
  releasing : String → Operation

unfoldable pub apply : Operation → Registry → Registry
unfolding claim add_channel release
apply (claiming linkedid owner channels reason) r = (claim linkedid owner channels reason r).1
apply (adding linkedid channel) r = add_channel linkedid channel r
apply (releasing linkedid) r = release linkedid r

unfoldable pub apply_all : List Operation → Registry → Registry
unfolding apply
apply_all [] r = r
apply_all (o ∷ os) r = apply_all os (apply o r)

pub lookup-write_claim :
    (l j : String) (cs : List String) (own : Ownership) (r : Registry)
    → lookup j (write_claim l cs own r).calls ≡ (
        if str_eq l j
        then some (record own { channels = add_all cs own.channels })
        else lookup j r.calls)
unfolding write_claim
lookup-write_claim l j cs own r =
    lookup-insert l j (record own { channels = add_all cs own.channels }) r.calls

pub channel-write_claim :
    (l c : String) (cs : List String) (own : Ownership) (r : Registry)
    → lookup c (write_claim l cs own r).channel_calls
      ≡ (if contains c cs then some l else lookup c r.channel_calls)
unfolding write_claim
channel-write_claim l c cs own r = lookup-insert_all cs c l r.channel_calls

-- The record of the claim, as it is written.
abbrev pub claimed : List String → Ownership → Ownership
claimed cs own = record own { channels = add_all cs own.channels }

pub lookup-claimed :
    (l : String) (cs : List String) (own : Ownership) (r : Registry)
    → lookup l (write_claim l cs own r).calls ≡ some (claimed cs own)
lookup-claimed l cs own r = lookup-write_claim l l cs own r ∙ rw (eq_refl l) refl

pub lookup_other :
    (l j : String) (cs : List String) (own : Ownership) (r : Registry)
    → str_eq j l ≡ false
    → lookup l (write_claim j cs own r).calls ≡ lookup l r.calls
lookup_other l j cs own r h = lookup-write_claim j l cs own r ∙ rw h refl

pub channel_claimed :
    (c l : String) (cs : List String) (own : Ownership) (r : Registry)
    → contains c cs ≡ true
    → lookup c (write_claim l cs own r).channel_calls ≡ some l
channel_claimed c l cs own r h = channel-write_claim l c cs own r ∙ rw h refl

pub channel_other :
    (c l : String) (cs : List String) (own : Ownership) (r : Registry)
    → contains c cs ≡ false
    → lookup c (write_claim l cs own r).channel_calls ≡ lookup c r.channel_calls
channel_other c l cs own r h = channel-write_claim l c cs own r ∙ rw h refl
