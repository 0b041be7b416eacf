-- ===== src/Flows/Transfer/Allowlist.antt =====
-- An agent chooses among the declared destinations, and cannot make one up.
use owen_main.Common.{
  ℕ, ◌≤◌, String, List, [], ◌∷◌, ◌≡◌, inl, inr, refl, sym, ap, ◌∙◌, Bool, true, false, ◌&&◌, Option,
  none, some, contains, In, contains-sorted, str_eq, eq_iff, Bool-cases, is_some, ◌||◌, leb, arith,
  if◌then◌else◌,
}
use mathlib.Core.Path.{subst}
use mathlib.Core.Option.{some_inj}
use owen_main.Common.Json.{Value, null, bool, int, float, str, list, dict, Dict, get, keys, as_dict}
use owen_main.Flows.Transfer.{
  out_of_range, transfer_kinds, ring_seconds_min, ring_seconds_max, ring_seconds_problem,
  usable_ring, chosen_from, keep_name, target_of, kind_of, Destination, destination, declared,
  resolve_transfer_target, offered, target_names,
}

-- What a chosen destination has to do with the entry that declares it.
pub record Declares (name : String) (entry : Dict) (d : Destination) : Type 0 where
  pub same_target : d.target ≡ target_of entry
  pub has_target : str_eq d.target "" ≡ false
  pub same_kind : d.kind ≡ kind_of entry
  pub known_kind : In d.kind transfer_kinds
  pub same_name : d.name ≡ name
  pub ring : d.ring_seconds ≡ usable_ring (get "ring_seconds" entry)

destination-Declares :
    (name : String) (entry : Dict) (d : Destination)
    → destination name entry ≡ some d
    → (contains (kind_of entry) transfer_kinds ≡ true)
      × (str_eq (target_of entry) "" ≡ false)
      × (chosen_from name entry ≡ d)
unfolding destination
destination-Declares name entry d h = elim (Bool-cases (contains (kind_of entry) transfer_kinds)) [
  | inl p ↦ elim (Bool-cases (str_eq (target_of entry) "")) [
    | inl q ↦ cc (rw (p, q) at h)
    | inr q ↦ (p, q, some_inj.0 (rw (p, q) at h))
  ]
  | inr p ↦ cc (rw p at h)
]

Declares-chosen_from :
    (name : String) (entry : Dict)
    → (contains (kind_of entry) transfer_kinds ≡ true)
    → (str_eq (target_of entry) "" ≡ false)
    → Declares name entry (chosen_from name entry)
unfolding chosen_from
Declares-chosen_from name entry p q = record {
  same_target = refl;
  has_target = q;
  same_kind = refl;
  known_kind = p;
  same_name = refl;
  ring = refl;
}

declared-entry :
    (name : String) (found : Option Dict) (d : Destination)
    → declared name found ≡ some d
    → (entry : Dict) × (found ≡ some entry) × Declares name entry d
unfolding declared
declared-entry name none d h = cc h
declared-entry name (some entry) d h =
    let (p, q, e) = destination-Declares name entry d h in
    (entry, refl, subst (Declares name entry) e (Declares-chosen_from name entry p q))

-- A destination that is chosen is one that the agent's version declares under that name: an object
-- whose own target, kind and ring time it takes; its kind is one of the four, and its target is not
-- empty.
pub transfer_declared :
    (targets : Dict) (name : String) (d : Destination)
    → resolve_transfer_target (some targets) name ≡ some d
    → (entry : Dict) × (as_dict (get name targets) ≡ some entry) × Declares name entry d
unfolding resolve_transfer_target
transfer_declared targets name d h = elim (Bool-cases (str_eq name "")) [
  | inl q ↦ cc (rw q at h)
  | inr q ↦ declared-entry name (as_dict (get name targets)) d (rw q at h)
]

declared-chosen :
    (name : String) (found : Option Dict) (d : Destination)
    → declared name found ≡ some d
    → (entry : Dict) × (chosen_from name entry ≡ d)
unfolding declared
declared-chosen name none d h = cc h
declared-chosen name (some entry) d h = (entry, (destination-Declares name entry d h).2)

pub transfer_chosen :
    (targets : Dict) (name : String) (d : Destination)
    → resolve_transfer_target (some targets) name ≡ some d
    → (entry : Dict) × (chosen_from name entry ≡ d)
unfolding resolve_transfer_target
transfer_chosen targets name d h = elim (Bool-cases (str_eq name "")) [
  | inl q ↦ cc (rw q at h)
  | inr q ↦ declared-chosen name (as_dict (get name targets)) d (rw q at h)
]

contains-keep_name :
    (n m : String) (o : Option Destination) (rest : List String)
    → contains n (keep_name m o rest) ≡ ((str_eq m n && is_some o) || contains n rest)
unfolding keep_name contains
contains-keep_name n m none rest = ground arith
contains-keep_name n m (some d) rest = ground arith

same_resolves :
    (f : String → Bool) (m n : String) (c : Bool)
    → m ≡ n
    → ((true && f m) || (c && f n)) ≡ ((true || c) && f n)
same_resolves f m n c q = ground (arith, ap f q)

contains-offered :
    (targets : Dict) (n : String) (ns : List String)
    → contains n (offered targets ns)
      ≡ (contains n ns && is_some (resolve_transfer_target (some targets) n))
unfolding offered contains
contains-offered targets n [] = refl
contains-offered targets n (m ∷ ns) =
    contains-keep_name n m (resolve_transfer_target (some targets) m) (offered targets ns)
    ∙ elim (Bool-cases (str_eq m n)) [
      | inl q ↦
          rw (q, contains-offered targets n ns)
            (same_resolves (λ k. is_some (resolve_transfer_target (some targets) k)) m n
              (contains n ns) ((eq_iff m n).0 q))
      | inr q ↦ rw q (contains-offered targets n ns)
    ]

-- The names offered to the agent are exactly those, among the declared ones, that resolve to a
-- destination.
pub target_names_resolve :
    (targets : Dict) (n : String)
    → contains n (target_names (some targets))
      ≡ (contains n (keys targets) && is_some (resolve_transfer_target (some targets) n))
unfolding target_names
target_names_resolve targets n =
    contains-sorted n (offered targets (keys targets)) ∙ contains-offered targets n (keys targets)

within :
    (n : ℕ) (u : Value) (b : Bool)
    → (b ≡ true → (ring_seconds_min ≤ n) × (n ≤ ring_seconds_max))
    → elim (if b then none else some out_of_range) as (λ _. Option Value) [
      | none ↦ some (int false n)
      | some _ ↦ none
    ]
      ≡ some u
    → (k : ℕ) × (u ≡ int false k) × (ring_seconds_min ≤ k) × (k ≤ ring_seconds_max)
within n u true f h = (n, sym (some_inj.0 h), (f refl).0, (f refl).1)
within n u false f h = cc h

-- A usable ring time is a whole number of seconds within the bounds.
pub ring_bounded :
    (v u : Value)
    → usable_ring v ≡ some u
    → (n : ℕ) × (u ≡ int false n) × (ring_seconds_min ≤ n) × (n ≤ ring_seconds_max)
unfolding usable_ring ring_seconds_problem
ring_bounded (int true n) u h = cc h
ring_bounded (int false n) u h =
    within n u (leb ring_seconds_min n && leb n ring_seconds_max) (λ q. ground arith) h
ring_bounded null u h = cc h
ring_bounded (bool b) u h = cc h
ring_bounded (float t) u h = cc h
ring_bounded (str t) u h = cc h
ring_bounded (list vs) u h = cc h
ring_bounded (dict fs) u h = cc h

-- Where a chosen destination says for how long to ring, that is a whole number of seconds from 5 to
-- 60, whatever the declaration says.
pub transfer_rings_bounded :
    (targets : Dict) (name : String) (d : Destination) (v : Value)
    → resolve_transfer_target (some targets) name ≡ some d
    → d.ring_seconds ≡ some v
    → (n : ℕ) × (v ≡ int false n) × (5 ≤ n) × (n ≤ 60)
transfer_rings_bounded targets name d v h r =
    let (entry, _, k) = transfer_declared targets name d h in
    ring_bounded (get "ring_seconds" entry) v (sym k.ring ∙ r)
