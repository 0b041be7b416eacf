-- ===== src/Flows/Validator/Worklist.antt =====
-- The stack of `_warn_unreachable` and the edges that its loop has not seen yet.
use owen_main.Common.{
  ℕ, ◌+◌, ◌≤◌, String, List, [], ◌∷◌, ◌≡◌, ◌⊎◌, inl, inr, false, contains, In, In-cons, In-tail,
  contains-head, str_eq, eq_iff, eq_refl, length, arith, Bool-cases, if◌then◌else◌,
}
use owen_main.Common.Json.{Dict, as_dict, get}
use owen_main.Flows.Validator.Ports.{edges}
use owen_main.Flows.Validator.Errors.{node_items}
use owen_main.Flows.Validator.Warnings.{target_ids, successors, push_unseen}

-- A node that the wired edges lead to from one of the seeds.
pub data Reachable (nodes : Dict) (seeds : List String) : String → Type 0 where
  seed : {s : String} → In s seeds → Reachable nodes seeds s
  step :
      {s t : String} → Reachable nodes seeds s → In t (successors nodes s) → Reachable nodes seeds t

-- A target that was not seen is on the stack afterwards, and what was on the stack stays.
pub In-push_right :
    (k : String) (ts seen stack : List String) → In k stack → In k (push_unseen ts seen stack)
unfolding push_unseen
In-push_right k [] seen stack h = h
In-push_right k (t ∷ ts) seen stack h = elim (Bool-cases (contains t seen)) [
  | inl e ↦ rw (e, push_unseen) (In-push_right k ts seen stack h)
  | inr e ↦ rw (e, push_unseen) (In-push_right k ts seen (t ∷ stack) (In-tail k t stack h))
]

In-push_left :
    (k : String) (ts seen stack : List String)
    → In k ts
    → In k seen ⊎ In k (push_unseen ts seen stack)
unfolding push_unseen
In-push_left k [] seen stack h = absurd (unfold contains in cc h)
In-push_left k (t ∷ ts) seen stack h = elim (In-cons k t ts h) [
  | inl e ↦ elim (Bool-cases (contains t seen)) [
    | inl s ↦ inl (rw (← e) s)
    | inr s ↦ inr (
        rw (s, push_unseen)
          (In-push_right k ts seen (t ∷ stack) (rw (← e) (contains-head t stack))))
  ]
  | inr i ↦ In-push_left k ts seen (if contains t seen then stack else t ∷ stack) i
]

-- What is on the stack was a target or was there.
pub In-push_cases :
    (k : String) (ts seen stack : List String)
    → In k (push_unseen ts seen stack)
    → In k ts ⊎ In k stack
unfolding push_unseen
In-push_cases k [] seen stack h = inr h
In-push_cases k (t ∷ ts) seen stack h =
    elim (In-push_cases k ts seen (if contains t seen then stack else t ∷ stack) h) [
      | inl i ↦ inl (In-tail k t ts i)
      | inr i ↦ elim (Bool-cases (contains t seen)) [
        | inl s ↦ inr (rw s at i)
        | inr s ↦ elim (In-cons k t stack (rw s at i)) [
          | inl e ↦ inl (rw (← e) (contains-head t ts))
          | inr j ↦ inr j
        ]
      ]
    ]

-- The edges out of nodes that are not seen yet.
unfoldable pub unvisited : Dict → Dict → List String → ℕ
unvisited all [] seen = 0
unvisited all ((k, v) ∷ ns) seen =
    (if contains k seen then 0 else length (target_ids all (edges (node_items v))))
    + unvisited all ns seen

unvisited_mono :
    (all ns : Dict) (cur : String) (seen : List String)
    → unvisited all ns (cur ∷ seen) ≤ unvisited all ns seen
unfolding unvisited contains
unvisited_mono all [] cur seen = omega arith
unvisited_mono all ((k, v) ∷ ns) cur seen = ground (arith, unvisited_mono all ns cur seen)

-- A node that is visited takes its edges out of that count.
pub unvisited_drop :
    (all ns : Dict) (cur : String) (seen : List String)
    → contains cur seen ≡ false
    → unvisited all ns (cur ∷ seen) + length (target_ids all (edges (node_items (get cur ns))))
      ≤ unvisited all ns seen
unfolding unvisited contains get
unvisited_drop all [] cur seen h = unfold node_items edges as_dict target_ids in omega arith
unvisited_drop all ((k, v) ∷ ns) cur seen h = elim (Bool-cases (str_eq k cur)) [
  | inl e ↦
      let same = (eq_iff k cur).0 e in
      ground (arith, unvisited_mono all ns cur seen, eq_refl cur, eq_iff k cur, eq_iff cur k)
  | inr e ↦ ground (arith, unvisited_drop all ns cur seen h, eq_iff k cur, eq_iff cur k)
]

pub length-push :
    (ts seen stack : List String) → length (push_unseen ts seen stack) ≤ length ts + length stack
unfolding push_unseen
length-push [] seen stack = omega arith
length-push (t ∷ ts) seen stack =
    ground (arith, length-push ts seen stack, length-push ts seen (t ∷ stack))

-- The edges out of what is seen lead to what is seen or stacked.
abbrev pub Frontier : Dict → List String → List String → Type 0
Frontier nodes stack seen =
    (s t : String) → In s seen → In t (successors nodes s) → In t seen ⊎ In t stack

pub record Covered (nodes : Dict) (stack seen result : List String) : Type 0 where
  pub covers : (k : String) → In k seen ⊎ In k stack → In k result
  pub closed : (s t : String) → In s result → In t (successors nodes s) → In t result

pub Frontier-visit :
    (nodes : Dict) (cur : String) (stack seen : List String)
    → Frontier nodes (cur ∷ stack) seen
    → Frontier nodes (push_unseen (successors nodes cur) (cur ∷ seen) stack) (cur ∷ seen)
Frontier-visit nodes cur stack seen inv s t hs ht =
    let ts = successors nodes cur in
    elim (In-cons s cur seen hs) [
      | inl e ↦ In-push_left t ts (cur ∷ seen) stack (rw e ht)
      | inr old ↦ elim (inv s t old ht) [
        | inl i ↦ inl (In-tail t cur seen i)
        | inr i ↦ elim (In-cons t cur stack i) [
          | inl e ↦ inl (rw (← e) (contains-head cur seen))
          | inr j ↦ inr (In-push_right t ts (cur ∷ seen) stack j)
        ]
      ]
    ]

pub Frontier-skip :
    (nodes : Dict) (cur : String) (stack seen : List String)
    → In cur seen
    → Frontier nodes (cur ∷ stack) seen
    → Frontier nodes stack seen
Frontier-skip nodes cur stack seen old inv s t hs ht = elim (inv s t hs ht) [
  | inl i ↦ inl i
  | inr i ↦ elim (In-cons t cur stack i) [ inl e ↦ inl (rw (← e) old) | inr j ↦ inr j ]
]
