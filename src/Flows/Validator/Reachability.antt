-- ===== src/Flows/Validator/Reachability.antt =====
-- The worklist of `_warn_unreachable` against reachability along wired edges.
use owen_main.Common.{
  ℕ, zero, suc, ◌+◌, ◌<◌, String, List, [], ◌∷◌, ◌≡◌, refl, sym, ◌∙◌, ◌↔◌, ◌⊎◌, inl, inr, ◌||◌,
  ◌&&◌, not, contains, In, In-cons, In-tail, contains-head, contains-sorted, str_eq, eq_iff,
  eq_refl, length, arith, Bool-cases, sorted,
}
use owen_main.Common.Json.{Dict, keys}
use owen_main.Flows.Validator.Warnings.{
  successors, push_unseen, reach, edge_count, reached, unreachable_ids, not_among, reverse_onto,
}
use owen_main.Flows.Validator.Worklist.{
  Reachable, In-push_right, In-push_cases, unvisited, unvisited_drop, length-push, Frontier,
  Covered, Frontier-visit, Frontier-skip, seed, step,
}

-- With enough fuel the loop ends with a closed set that holds all it was given.
reach_covers :
    (nodes : Dict) (f : ℕ) (stack seen : List String)
    → length stack + unvisited nodes nodes seen < f
    → Frontier nodes stack seen
    → Covered nodes stack seen (reach f nodes stack seen)
unfolding reach
reach_covers nodes zero stack seen h inv = absurd (omega arith)
reach_covers nodes (suc f) [] seen h inv = record {
  covers = λ k c. elim c [ inl i ↦ i | inr i ↦ absurd (unfold contains in cc i) ];
  closed = λ s t i j. elim (inv s t i j) [ inl a ↦ a | inr a ↦ absurd (unfold contains in cc a) ];
}
reach_covers nodes (suc f) (cur ∷ stack) seen h inv = elim (Bool-cases (contains cur seen)) [
  | inl old ↦
      let rest =
        reach_covers nodes f stack seen (omega arith)
          (Frontier-skip nodes cur stack seen old inv) in
      rw (old) (record {
        covers = λ k c. rest.covers k (elim c [
          | inl i ↦ inl i
          | inr i ↦ elim (In-cons k cur stack i) [ inl e ↦ inl (rw (← e) old) | inr j ↦ inr j ]
        ]);
        closed = rest.closed;
      })
  | inr new ↦
      let ts = successors nodes cur in
      let rest =
        reach_covers nodes f (push_unseen ts (cur ∷ seen) stack) (cur ∷ seen)
          (unfold successors in
            omega
              (arith, unvisited_drop nodes nodes cur seen new, length-push ts (cur ∷ seen) stack))
          (Frontier-visit nodes cur stack seen inv) in
      rw (new) (record {
        covers = λ k c. rest.covers k (elim c [
          | inl i ↦ inl (In-tail k cur seen i)
          | inr i ↦ elim (In-cons k cur stack i) [
            | inl e ↦ inl (rw (← e) (contains-head cur seen))
            | inr j ↦ inr (In-push_right k ts (cur ∷ seen) stack j)
          ]
        ]);
        closed = rest.closed;
      })
]

-- Whatever the fuel, only reachable nodes are collected.
reach_sound :
    (nodes : Dict) (seeds : List String) (f : ℕ) (stack seen : List String)
    → ((k : String) → In k seen ⊎ In k stack → Reachable nodes seeds k)
    → (k : String) → In k (reach f nodes stack seen)
    → Reachable nodes seeds k
unfolding reach
reach_sound nodes seeds zero stack seen h k i = h k (inl i)
reach_sound nodes seeds (suc f) [] seen h k i = h k (inl i)
reach_sound nodes seeds (suc f) (cur ∷ stack) seen h k i = elim (Bool-cases (contains cur seen)) [
  | inl old ↦
      reach_sound nodes seeds f stack seen
        (λ j c. elim c [ inl a ↦ h j (inl a) | inr a ↦ h j (inr (In-tail j cur stack a)) ]) k
        (rw old at i)
  | inr new ↦
      let here : Reachable nodes seeds cur = h cur (inr (contains-head cur stack)) in
      reach_sound nodes seeds f (push_unseen (successors nodes cur) (cur ∷ seen) stack) (cur ∷ seen)
        (λ j c. elim c [
          | inl a ↦ elim (In-cons j cur seen a) [ inl e ↦ rw (← e) here | inr b ↦ h j (inl b) ]
          | inr a ↦ elim (In-push_cases j (successors nodes cur) (cur ∷ seen) stack a) [
            | inl b ↦ step here b
            | inr b ↦ h j (inr (In-tail j cur stack b))
          ]
        ])
        k (rw new at i)
]

unvisited_none : (all ns : Dict) → unvisited all ns [] ≡ edge_count all ns
unfolding unvisited edge_count contains
unvisited_none all [] = refl
unvisited_none all ((k, v) ∷ ns) = omega (arith, unvisited_none all ns)

-- The fuel of `reached` is enough: the set that the loop collects is the set of reachable nodes.
pub reached_iff :
    (nodes : Dict) (seeds : List String) (k : String)
    → In k (reached nodes seeds) ↔ Reachable nodes seeds k
unfolding reached
reached_iff nodes seeds k = (
  reach_sound nodes seeds _ seeds []
      (λ j c. elim c [ inl a ↦ absurd (unfold contains in cc a) | inr a ↦ seed a ]) k,
  complete,
)
  where
    all : Covered nodes seeds [] (reached nodes seeds)
    all =
        reach_covers nodes _ seeds [] (omega (arith, unvisited_none nodes nodes))
          (λ s t i j. absurd (unfold contains in cc i))

    complete : {j : String} → Reachable nodes seeds j → In j (reached nodes seeds)
    complete (seed {s = s} i) = all.covers s (inr i)
    complete (step {s = s} {t = t} r i) = all.closed s t (complete r) i

In-not_among :
    (k : String) (seen ks : List String)
    → contains k (not_among seen ks) ≡ (contains k ks && not (contains k seen))
unfolding not_among contains
In-not_among k seen [] = refl
In-not_among k seen (j ∷ ks) = elim (Bool-cases (str_eq j k)) [
  | inl e ↦ rw ((eq_iff j k).0 e) (ground (arith, In-not_among k seen ks, eq_refl k))
  | inr e ↦ ground (arith, In-not_among k seen ks)
]

In-reverse_onto :
    (k : String) (xs acc : List String)
    → contains k (reverse_onto xs acc) ≡ (contains k xs || contains k acc)
unfolding reverse_onto contains
In-reverse_onto k [] acc = refl
In-reverse_onto k (x ∷ xs) acc = ground (arith, In-reverse_onto k xs (x ∷ acc))

Reachable-reseed :
    (nodes : Dict) {seeds seeds' : List String} {k : String}
    → ((j : String) → In j seeds → In j seeds')
    → Reachable nodes seeds k
    → Reachable nodes seeds' k
Reachable-reseed nodes f (seed {s = s} i) = seed (f s i)
Reachable-reseed nodes f (step r i) = step (Reachable-reseed nodes f r) i

-- Of the nodes of a graph, the warnings name exactly those that no path of wired edges leads to
-- from the seeds (the entry nodes and the fallback).
pub unreachable_ids_iff :
    (nodes : Dict) (seeds : List String) (k : String)
    → In k (keys nodes)
    → In k (unreachable_ids nodes seeds) ↔ (¬ Reachable nodes seeds k)
unfolding unreachable_ids
unreachable_ids_iff nodes seeds k h = (named, unnamed)
  where
    back : List String
    back = reverse_onto seeds []

    back_eq : (j : String) → contains j back ≡ contains j seeds
    back_eq j = In-reverse_onto j seeds [] ∙ (unfold contains in ground arith)

    formula : contains k (unreachable_ids nodes seeds) ≡ not (contains k (reached nodes back))
    formula =
        In-not_among k (reached nodes back) (sorted (keys nodes))
        ∙ (rw (contains-sorted k (keys nodes), h))

    named : In k (unreachable_ids nodes seeds) → ¬ Reachable nodes seeds k
    named i r =
        let there =
          (reached_iff nodes back k).1 (Reachable-reseed nodes (λ j q. back_eq j ∙ q) r) in
        ground (arith, formula, there, i)

    unnamed : (¬ Reachable nodes seeds k) → In k (unreachable_ids nodes seeds)
    unnamed miss = elim (Bool-cases (contains k (reached nodes back))) [
      | inl e ↦ absurd (
          miss
            (Reachable-reseed nodes (λ j q. sym (back_eq j) ∙ q) ((reached_iff nodes back k).0 e)))
      | inr e ↦ formula ∙ (rw e)
    ]
