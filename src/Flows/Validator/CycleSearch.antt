-- ===== src/Flows/Validator/CycleSearch.antt =====
-- The depth-first search against the graph: what it reports is a cycle, and if it reports nothing
-- there is none.
use mathlib.Core.Path.{subst}
use owen_main.Common.{
  ℕ, zero, suc, String, List, [], ◌∷◌, ◌++◌, ◌≡◌, sym, ap, ◌∙◌, inl, inr, some, str_eq, eq_iff,
  Bool-cases, Option-cases, arith, contains, In, In-tail, contains-head, contains-append,
}
use owen_main.Common.Json.{Dict, keys}
use owen_main.Flows.Validator.Warnings.{successors}
use owen_main.Flows.Validator.Cycles.{
  grey, Colors, color_of, paint, from_first, Visit, visit_targets, visit, search_from, find_cycle,
}
use owen_main.Flows.Validator.CycleSteps.{
  is_white, is_grey, is_black, Color-cases, visit_targets_grey, visit_targets_black,
  visit_targets_found, visit_targets_on, search_from_old, search_from_found, search_from_on,
  KeepsGrey, visit-KeepsGrey,
}

-- At least one wired edge, and then more, from a node to a node.
pub data Walk (nodes : Dict) : String → String → Type 0 where
  single : {s t : String} → In t (successors nodes s) → Walk nodes s t
  onward : {s t u : String} → In t (successors nodes s) → Walk nodes t u → Walk nodes s u

-- Each element of the list has an edge to the next, and the last one to `t`.
abbrev pub LeadsTo : Dict → List String → String → Type 0
LeadsTo nodes [] t = Unit
LeadsTo nodes (p ∷ []) t = In t (successors nodes p)
LeadsTo nodes (p ∷ q ∷ ps) t = In q (successors nodes p) × LeadsTo nodes (q ∷ ps) t

-- A list of nodes that ends where it began, along wired edges.
abbrev pub IsCycle : Dict → List String → Type 0
IsCycle nodes c =
    (t : String) × (ps : List String) × (c ≡ t ∷ (ps ++ (t ∷ []))) × LeadsTo nodes (t ∷ ps) t

LeadsTo-append :
    (nodes : Dict) (path : List String) (nid t : String)
    → LeadsTo nodes path nid
    → In t (successors nodes nid)
    → LeadsTo nodes (path ++ (nid ∷ [])) t
LeadsTo-append nodes [] nid t h i = i
LeadsTo-append nodes (p ∷ []) nid t h i = (h, i)
LeadsTo-append nodes (p ∷ q ∷ ps) nid t h i = (h.0, LeadsTo-append nodes (q ∷ ps) nid t h.1 i)

LeadsTo-tail :
    (nodes : Dict) (p : String) (ps : List String) (t : String)
    → LeadsTo nodes (p ∷ ps) t
    → LeadsTo nodes ps t
LeadsTo-tail nodes p [] t h = tt
LeadsTo-tail nodes p (q ∷ ps) t h = h.1

-- The reported list: the path from the first `t` on, and `t` again.
from_first-IsCycle :
    (nodes : Dict) (t : String) (path : List String)
    → In t path
    → LeadsTo nodes path t
    → IsCycle nodes (from_first t path ++ (t ∷ []))
unfolding from_first
from_first-IsCycle nodes t [] i h = absurd (unfold contains in cc i)
from_first-IsCycle nodes t (p ∷ ps) i h = elim (Bool-cases (str_eq p t)) [
  | inl e ↦
      let same = (eq_iff p t).0 e in
      (
        t,
        ps,
        rw (e, from_first) (ap (λ x. x ∷ (ps ++ (t ∷ []))) same),
        subst (λ x. LeadsTo nodes (x ∷ ps) t) same h,
      )
  | inr e ↦
      rw (e, from_first)
        (from_first-IsCycle nodes t ps (unfold contains in ground arith)
          (LeadsTo-tail nodes p ps t h))
]

-- The grey nodes are on the path.
abbrev Greys : Colors → List String → Type 0
Greys cs path = (k : String) → color_of cs k ≡ grey → In k path

abbrev Sound : Dict → Visit → Type 0
Sound nodes v =
    (cs : Colors) (t : String) (path : List String) (c : List String)
    → Greys cs path
    → LeadsTo nodes path t
    → (v cs t path).1 ≡ some c
    → IsCycle nodes c

visit_targets-Sound :
    (nodes : Dict) (v : Visit)
    → Sound nodes v
    → KeepsGrey v
    → (nid : String) (ts : List String) (cs : Colors) (path : List String) (c : List String)
    → Greys cs path
    → ((t : String) → In t ts → LeadsTo nodes path t)
    → (visit_targets v nid ts cs path).1 ≡ some c
    → IsCycle nodes c
visit_targets-Sound nodes v sound keep nid [] cs path c g l h =
    absurd (unfold visit_targets in cc h)
visit_targets-Sound nodes v sound keep nid (t ∷ ts) cs path c g l h =
    let later = λ (x : String) (i : In x ts). l x (In-tail x t ts i) in
    elim (Color-cases (color_of cs t)) [
      | is_grey e ↦
          let same = ap (λ r. r.1) (sym (visit_targets_grey v nid t ts cs path e)) ∙ h in
          let found : from_first t path ++ (t ∷ []) ≡ c = cc same in
          rw (← found) (from_first-IsCycle nodes t path (g t e) (l t (contains-head t ts)))
      | is_black e ↦
          visit_targets-Sound nodes v sound keep nid ts cs path c g later
            (rw (visit_targets_black v nid t ts cs path e) at h)
      | is_white e ↦ elim (Option-cases (v cs t path).1) [
        | inr (d, f) ↦
            sound cs t path c g (l t (contains-head t ts))
              (rw (visit_targets_found v nid t ts cs path e f) at h)
        | inl f ↦
            visit_targets-Sound nodes v sound keep nid ts (v cs t path).0 path c
              (λ k q. g k (keep cs t path f k q)) later
              (rw (visit_targets_on v nid t ts cs path e f) at h)
      ]
    ]

paint-Greys :
    (nid : String) (cs : Colors) (path : List String)
    → Greys cs path
    → Greys (paint nid grey cs) (path ++ (nid ∷ []))
unfolding color_of contains
paint-Greys nid cs path g k h =
    contains-append k path (nid ∷ [])
    ∙ elim (Bool-cases (str_eq nid k)) [ inl e ↦ ground arith | inr e ↦ ground (arith, g k) ]

visit-Sound : (f : ℕ) (nodes : Dict) → Sound nodes (visit f nodes)
unfolding visit
visit-Sound zero nodes cs t path c g l h = cc h
visit-Sound (suc f) nodes cs t path c g l h =
    visit_targets-Sound nodes (visit f nodes) (visit-Sound f nodes) (visit-KeepsGrey f nodes) t
      (successors nodes t) (paint t grey cs) (path ++ (t ∷ [])) c (paint-Greys t cs path g)
      (λ x i. LeadsTo-append nodes path t x l i) h

abbrev NoGrey : Colors → Type 0
NoGrey cs = (k : String) → color_of cs k ≡ grey → ⊥

search_from_sound :
    (nodes : Dict) (f : ℕ) (nids : List String) (cs : Colors) (c : List String)
    → NoGrey cs
    → search_from (visit f nodes) nids cs ≡ some c
    → IsCycle nodes c
search_from_sound nodes f [] cs c g h = absurd (unfold search_from in cc h)
search_from_sound nodes f (nid ∷ nids) cs c g h =
    let v = visit f nodes in
    elim (Color-cases (color_of cs nid)) [
      | is_grey e ↦ absurd (g nid e)
      | is_black e ↦
          search_from_sound nodes f nids cs c g (rw (search_from_old v nid nids cs (inr e)) at h)
      | is_white e ↦ elim (Option-cases (v cs nid []).1) [
        | inr (d, q) ↦
            let same : d ≡ c = cc (search_from_found v nid nids cs e q, h) in
            visit-Sound f nodes cs nid [] c (λ k r. absurd (g k r)) tt (q ∙ ap some same)
        | inl q ↦
            search_from_sound nodes f nids (v cs nid []).0 c
              (λ k r. g k (visit-KeepsGrey f nodes cs nid [] q k r))
              (rw (search_from_on v nid nids cs e q) at h)
      ]
    ]

-- A cycle that the validator warns of is a cycle of the graph: it ends with the node that it begins
-- with, and each of its nodes has a wired edge to the next.
pub find_cycle-IsCycle :
    (nodes : Dict) (c : List String) → find_cycle nodes ≡ some c → IsCycle nodes c
unfolding find_cycle
find_cycle-IsCycle nodes c h =
    search_from_sound nodes _ (keys nodes) [] c (λ k e. unfold color_of in cc e) h
