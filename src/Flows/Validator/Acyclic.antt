-- ===== src/Flows/Validator/Acyclic.antt =====
-- Where the depth-first search reports no cycle, the graph has none: every black node is
-- accessible along the edges, and at the end every node is black.
use mathlib.Core.WellFounded.{Acc}
use owen_main.Common.{
  ℕ, zero, suc, ◌+◌, ◌≤◌, ◌<◌, String, List, [], ◌∷◌, ◌++◌, ◌≡◌, refl, sym, ap, ◌∙◌, ◌⊎◌, inl, inr,
  none, str_eq, eq_iff, Bool, Bool-cases, Option-cases, arith, true, false, if◌then◌else◌, contains,
  In, In-cons, In-tail, contains-head, length,
}
use owen_main.Common.Json.{null, bool, int, float, str, list, dict, Dict, get, has, keys}
use owen_main.Flows.Validator.Ports.{edges}
use owen_main.Flows.Validator.Errors.{node_items}
use owen_main.Flows.Validator.Warnings.{target_ids, successors}
use owen_main.Flows.Validator.Cycles.{
  Color, white, grey, black, Colors, color_of, paint, Visit, visit_targets, visit, search_from,
  find_cycle,
}
use owen_main.Flows.Validator.CycleSteps.{
  is_white, is_grey, is_black, Color-cases, visit_targets_grey, visit_targets_black,
  visit_targets_found, visit_targets_on, search_from_old, search_from_found, search_from_on,
  visit-KeepsGrey,
}
use owen_main.Flows.Validator.CycleSearch.{Walk, single, onward}

abbrev Edge : Dict → String → String → Type 0
Edge nodes t s = In t (successors nodes s)

abbrev Blacks : Dict → Colors → Type 0
Blacks nodes cs = (k : String) → color_of cs k ≡ black → Acc (Edge nodes) k

abbrev is_white_color : Color → Bool
is_white_color white = true
is_white_color _ = false

-- How many of the ids are white.
whites : List String → Colors → ℕ
whites [] cs = 0
whites (k ∷ ks) cs = (if is_white_color (color_of cs k) then 1 else 0) + whites ks cs

whites-paint-le :
    (ks : List String) (nid : String) (c : Color) (cs : Colors)
    → is_white_color c ≡ false
    → whites ks (paint nid c cs) ≤ whites ks cs
unfolding whites color_of
whites-paint-le [] nid c cs h = omega arith
whites-paint-le (k ∷ ks) nid c cs h = ground (arith, whites-paint-le ks nid c cs)

whites-paint-lt :
    (ks : List String) (nid : String) (cs : Colors)
    → In nid ks
    → color_of cs nid ≡ white
    → whites ks (paint nid grey cs) < whites ks cs
unfolding whites color_of contains
whites-paint-lt [] nid cs i h = cc
whites-paint-lt (k ∷ ks) nid cs i h = elim (Bool-cases (str_eq k nid)) [
  | inl e ↦
      let same = (eq_iff k nid).0 e in ground (arith, whites-paint-le ks nid grey cs, eq_iff nid k)
  | inr e ↦
      ground (
        arith,
        whites-paint-lt ks nid cs,
        eq_iff nid k,
        eq_iff k nid,
        whites-paint-le ks nid grey cs,
      )
]

-- Targets are nodes.
has-keys : (k : String) (d : Dict) → has k d ≡ contains k (keys d)
unfolding has contains
has-keys k [] = refl
has-keys k ((j, v) ∷ d) = ground (arith, has-keys k d)

In-target_ids : (nodes es : Dict) (t : String) → In t (target_ids nodes es) → has t nodes ≡ true
unfolding target_ids
In-target_ids nodes [] t i = absurd (unfold contains in cc i)
In-target_ids nodes ((p, str s) ∷ es) t i = elim (Bool-cases (has s nodes)) [
  | inl e ↦ elim (In-cons t s (target_ids nodes es) (rw e at i)) [
    | inl q ↦ rw (← q) e
    | inr j ↦ In-target_ids nodes es t j
  ]
  | inr e ↦ In-target_ids nodes es t (rw e at i)
]
In-target_ids nodes ((p, null) ∷ es) t i = In-target_ids nodes es t i
In-target_ids nodes ((p, bool _) ∷ es) t i = In-target_ids nodes es t i
In-target_ids nodes ((p, int _ _) ∷ es) t i = In-target_ids nodes es t i
In-target_ids nodes ((p, float _) ∷ es) t i = In-target_ids nodes es t i
In-target_ids nodes ((p, list _) ∷ es) t i = In-target_ids nodes es t i
In-target_ids nodes ((p, dict _) ∷ es) t i = In-target_ids nodes es t i

successors-keys : (nodes : Dict) (s t : String) → Edge nodes t s → In t (keys nodes)
unfolding successors
successors-keys nodes s t i =
    sym (has-keys t nodes) ∙ In-target_ids nodes (edges (node_items (get s nodes))) t i

-- What a visit that finds no cycle has done.
record Finished (nodes : Dict) (cs cs' : Colors) (nid : String) : Type 0 where
  blacks : Blacks nodes cs'
  done : Acc (Edge nodes) nid
  fewer : whites (keys nodes) cs' ≤ whites (keys nodes) cs

abbrev Finishes : Dict → ℕ → Visit → Type 0
Finishes nodes f v =
    (cs : Colors) (t : String) (path : List String)
    → Blacks nodes cs
    → whites (keys nodes) cs ≤ f
    → color_of cs t ≡ white
    → In t (keys nodes)
    → (v cs t path).1 ≡ none
    → Finished nodes cs (v cs t path).0 t

paint-Blacks :
    (nodes : Dict) (nid : String) (c : Color) (cs : Colors)
    → (c ≡ black → Acc (Edge nodes) nid)
    → Blacks nodes cs
    → Blacks nodes (paint nid c cs)
paint-Blacks nodes nid c cs a b k h = elim (Bool-cases (str_eq nid k)) [
  | inl e ↦ rw (← ((eq_iff nid k).0 e)) (a (unfold color_of in ground arith))
  | inr e ↦ b k (unfold color_of in ground arith)
]

visit_targets-Finished :
    (nodes : Dict) (f : ℕ) (v : Visit)
    → Finishes nodes f v
    → (nid : String) (ts : List String) (cs : Colors) (path : List String) → Blacks nodes cs
    → whites (keys nodes) cs ≤ f
    → ((t : String) → In t ts → In t (keys nodes))
    → ((t : String) → Edge nodes t nid → Acc (Edge nodes) t ⊎ In t ts)
    → (visit_targets v nid ts cs path).1 ≡ none
    → Finished nodes cs (visit_targets v nid ts cs path).0 nid
visit_targets-Finished nodes f v fin nid [] cs path b w ks acc h =
    unfold visit_targets in
    record {
      blacks = paint-Blacks nodes nid black cs (λ _. all) b;
      done = all;
      fewer = whites-paint-le (keys nodes) nid black cs refl;
    }
  where
    all : Acc (Edge nodes) nid
    all =
        Acc.intro nid
          (λ t i. elim (acc t i) [ inl a ↦ a | inr j ↦ absurd (unfold contains in cc j) ])
visit_targets-Finished nodes f v fin nid (t ∷ ts) cs path b w ks acc h =
    let ks' = λ (x : String) (i : In x ts). ks x (In-tail x t ts i) in
    elim (Color-cases (color_of cs t)) [
      | is_grey e ↦ absurd (cc (ap (λ r. r.1) (visit_targets_grey v nid t ts cs path e)))
      | is_black e ↦ rw (visit_targets_black v nid t ts cs path e) (
          visit_targets-Finished nodes f v fin nid ts cs path b w ks' (narrow (b t e))
            (rw (visit_targets_black v nid t ts cs path e) at h))
      | is_white e ↦ elim (Option-cases (v cs t path).1) [
        | inr (c, q) ↦ absurd (cc (q, ap (λ r. r.1) (visit_targets_found v nid t ts cs path e q)))
        | inl q ↦
            let one = fin cs t path b w e (ks t (contains-head t ts)) q in
            let rest =
              visit_targets-Finished nodes f v fin nid ts (v cs t path).0 path one.blacks
                (omega (arith, one.fewer)) ks' (narrow one.done)
                (rw (visit_targets_on v nid t ts cs path e q) at h) in
            rw (visit_targets_on v nid t ts cs path e q) (record {
              blacks = rest.blacks;
              done = rest.done;
              fewer = omega (arith, one.fewer, rest.fewer);
            })
      ]
    ]
  where
    narrow : Acc (Edge nodes) t → (x : String) → Edge nodes x nid → Acc (Edge nodes) x ⊎ In x ts
    narrow a x i = elim (acc x i) [
      | inl y ↦ inl y
      | inr j ↦ elim (In-cons x t ts j) [ inl e ↦ inl (rw (← e) a) | inr y ↦ inr y ]
    ]

visit-Finishes : (f : ℕ) (nodes : Dict) → Finishes nodes f (visit f nodes)
unfolding visit
visit-Finishes zero nodes cs t path b w e i h =
    absurd (omega (arith, whites-paint-lt (keys nodes) t cs i e))
visit-Finishes (suc f) nodes cs t path b w e i h =
    let less = whites-paint-lt (keys nodes) t cs i e in
    let r =
      visit_targets-Finished nodes f (visit f nodes) (visit-Finishes f nodes) t (successors nodes t)
        (paint t grey cs) (path ++ (t ∷ [])) (paint-Blacks nodes t grey cs (λ q. cc q) b)
        (omega (arith, less)) (λ x j. successors-keys nodes t x j) (λ x j. inr j) h in
    record { blacks = r.blacks; done = r.done; fewer = omega (arith, r.fewer, less) }

search_from_complete :
    (nodes : Dict) (f : ℕ) (nids : List String) (cs : Colors)
    → Blacks nodes cs
    → ((k : String) → color_of cs k ≡ grey → ⊥)
    → whites (keys nodes) cs ≤ f
    → ((k : String) → In k nids → In k (keys nodes))
    → search_from (visit f nodes) nids cs ≡ none
    → (k : String) → In k nids
    → Acc (Edge nodes) k
search_from_complete nodes f [] cs b g w ks h k i = absurd (unfold contains in cc i)
search_from_complete nodes f (nid ∷ nids) cs b g w ks h k i =
    let v = visit f nodes in
    let ks' = λ (x : String) (j : In x nids). ks x (In-tail x nid nids j) in
    elim (Color-cases (color_of cs nid)) [
      | is_grey e ↦ absurd (g nid e)
      | is_black e ↦ elim (In-cons k nid nids i) [
        | inl q ↦ rw (← q) (b nid e)
        | inr j ↦
            search_from_complete nodes f nids cs b g w ks'
              (rw (search_from_old v nid nids cs (inr e)) at h) k j
      ]
      | is_white e ↦ elim (Option-cases (v cs nid []).1) [
        | inr (d, q) ↦ absurd (cc (search_from_found v nid nids cs e q))
        | inl q ↦
            let one = visit-Finishes f nodes cs nid [] b w e (ks nid (contains-head nid nids)) q in
            elim (In-cons k nid nids i) [
              | inl same ↦ rw (← same) one.done
              | inr j ↦
                  search_from_complete nodes f nids (v cs nid []).0 one.blacks
                    (λ x r. g x (visit-KeepsGrey f nodes cs nid [] q x r))
                    (omega (arith, one.fewer)) ks' (rw (search_from_on v nid nids cs e q) at h) k j
            ]
      ]
    ]

whites_none : (d : Dict) → whites (keys d) [] ≤ length d
unfolding whites color_of
whites_none [] = omega arith
whites_none ((k, v) ∷ d) = omega (arith, whites_none d)

no_return : (nodes : Dict) (s : String) → Acc (Edge nodes) s → Walk nodes s s → ⊥
no_return nodes s (Acc.intro _ below) (single i) = no_return nodes s (below s i) (single i)
no_return nodes s (Acc.intro _ below) (onward {t = t} i w) =
    no_return nodes t (below t i) (extend w i)
  where
    extend : {a b c : String} → Walk nodes a b → In c (successors nodes b) → Walk nodes a c
    extend (single j) k = onward j (single k)
    extend (onward j w) k = onward j (extend w k)

last_node : (nodes : Dict) (s t : String) → Walk nodes s t → In t (keys nodes)
last_node nodes s t (single i) = successors-keys nodes s t i
last_node nodes s t (onward {t = x} i w) = last_node nodes x t w

-- If the search warns of no cycle, then no walk along wired edges comes back to where it began.
pub find_cycle_complete : (nodes : Dict) (s : String) → find_cycle nodes ≡ none → ¬ Walk nodes s s
unfolding find_cycle
find_cycle_complete nodes s h w =
    no_return nodes s
      (search_from_complete nodes (suc (length nodes)) (keys nodes) []
        (λ k e. unfold color_of in cc e) (λ k e. unfold color_of in cc e)
        (omega (arith, whites_none nodes)) (λ k i. i) h s (last_node nodes s s w))
      w
