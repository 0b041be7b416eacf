-- ===== src/Flows/Validator/Acceptance.antt =====
-- Activation: `validate_graph` finds no error exactly in the well-formed graphs.
use owen_main.Common.{
  List, [], ◌∷◌, ◌++◌, ◌≡◌, refl, sym, ap, ◌∙◌, true, Result, ok, raise, ◌>>=◌, collect,
  collect-nil, nil-collect, ok_inj, append-eq-nil, All-zip, All-imp, arith,
}
use owen_main.Common.Json.{Value, dict, Fields, end, field, Dict, items, get}
use owen_main.Flows.Validator.{
  ValidationResult, passed, graph_warnings, validate_graph, validate_nodes, after_shape,
}
use owen_main.Flows.Validator.Errors.{
  Problem, graph_not_object, graph_has_no_nodes, shape_errors, entry_ids, entry_errors, node_errors,
  fallback_errors, graph_errors,
}
use owen_main.Flows.Validator.WellFormed.{IsObject, NodeFits, OneEntry, WellFormedParts, WellFormed}
use owen_main.Flows.Validator.Nodes.{
  node_ok, node_fits, shape_ok, shape_fits, fallback_ok, fallback_fits,
}
use owen_main.Flows.Validator.Entries.{entry_ok, entry_fits}

-- The parts of a graph hold exactly where the passes after the shape guard append nothing.
parts_ok : (g ns : Dict) → shape_errors ns ≡ [] → graph_errors g ns ≡ ok [] → WellFormedParts g ns
unfolding graph_errors
parts_ok g ns shape h = go _ _ refl refl h
  where
    Answer : Type 0
    Answer = Result (List Problem)

    go :
        (r s : Answer)
        → collect (node_errors ns) ns ≡ r
        → fallback_errors ns (get "default_fallback" g) ≡ s
        → (r >>= λ per_node.
            s >>= λ fallback. ok (entry_errors (entry_ids ns) ++ (per_node ++ fallback)))
          ≡ ok []
        → WellFormedParts g ns
    go (ok xs) (ok ys) e d h =
        let outer = append-eq-nil (entry_errors (entry_ids ns)) (xs ++ ys) (ok_inj h) in
        let inner = append-eq-nil xs ys outer.1 in
        record {
          one_entry = entry_ok ns outer.0;
          nodes_fit =
              All-zip (λ n d q. node_ok ns n d.0 d.1 q) ns (shape_ok ns shape)
                (collect-nil (node_errors ns) ns (e ∙ ap ok inner.0));
          fallback_fits = fallback_ok ns _ (d ∙ ap ok inner.1);
        }
    go (ok xs) (raise e') e d h = cc
    go (raise e') s e d h = cc

parts_fit : (g ns : Dict) → WellFormedParts g ns → graph_errors g ns ≡ ok []
unfolding graph_errors
parts_fit g ns w =
    rw (nil-collect (node_errors ns) ns (All-imp (node_fits ns) ns w.nodes_fit))
      (rw (fallback_fits ns (get "default_fallback" g) w.fallback_fits, entry_fits ns w.one_entry))

passed-nil : (r : ValidationResult) → passed r ≡ true → r.errors ≡ []
unfolding passed
passed-nil r h = ground arith

failed :
    (r : ValidationResult) (e : Problem) (es : List Problem)
    → r.errors ≡ e ∷ es
    → passed r ≡ true
    → ⊥
failed r e es h k = cc (passed-nil r k)

errors-ok : {r s : ValidationResult} → ok r ≡ ok s → r.errors ≡ s.errors
errors-ok h = ap (λ t. t.errors) (ok_inj h)

after_ok :
    (g ns : Dict) (shape : List Problem) (r : ValidationResult)
    → shape_errors ns ≡ shape
    → after_shape g ns shape ≡ ok r
    → passed r ≡ true
    → WellFormedParts g ns
unfolding after_shape
after_ok g ns (e ∷ es) r q h k = absurd (failed r e es (sym (errors-ok h)) k)
after_ok g ns [] r q h k = go (graph_errors g ns) refl h
  where
    go :
        (a : Result (List Problem))
        → graph_errors g ns ≡ a
        → (a >>= λ es. ok (record { errors = es; warnings = graph_warnings g ns })) ≡ ok r
        → WellFormedParts g ns
    go (ok es) d h = parts_ok g ns q (d ∙ ap ok (errors-ok h ∙ passed-nil r k))
    go (raise e) d h = cc

nodes_ok :
    (g : Fields) (n : Value) (r : ValidationResult)
    → get "nodes" (items g) ≡ n
    → validate_nodes (items g) n ≡ ok r
    → passed r ≡ true
    → WellFormed (dict g)
unfolding validate_nodes
nodes_ok g (dict end) r e h k = absurd (failed r graph_has_no_nodes [] (sym (errors-ok h)) k)
nodes_ok g (dict (field nid v ns)) r e h k =
    (g, field nid v ns, refl, e, after_ok (items g) ((nid, v) ∷ items ns) _ r refl h k)
nodes_ok g _ r e h k = absurd (failed r graph_has_no_nodes [] (sym (errors-ok h)) k)

-- A graph that may be activated (the validation returned, and found no hard error) is well formed:
-- exactly one entry node, known types only, every wired port allowed for its node's type and
-- leading to a node, and a `default_fallback` that is absent or a node.
pub accepted-WellFormed :
    (v : Value) (r : ValidationResult) → validate_graph v ≡ ok r → passed r ≡ true → WellFormed v
unfolding validate_graph
accepted-WellFormed (dict g) r h k = nodes_ok g _ r refl h k
accepted-WellFormed _ r h k = absurd (failed r graph_not_object [] (sym (errors-ok h)) k)

nodes_fit :
    (g : Dict) (ns : Fields)
    → WellFormedParts g (items ns)
    → validate_nodes g (dict ns)
      ≡ ok (record { errors = []; warnings = graph_warnings g (items ns) })
unfolding validate_nodes after_shape
nodes_fit g end w = absurd (no_nodes w.one_entry)
  where
    no_nodes : OneEntry [] → ⊥
    no_nodes ([], entry, after, split, _, _, _) = cc
    no_nodes (b ∷ before, entry, after, split, _, _, _) = cc
nodes_fit g (field nid v ns) w =
    let ns' = (nid, v) ∷ items ns in
    rw (
      shape_fits ns'
          (All-imp {P = NodeFits ns'} {Q = IsObject} (λ n f. (f.0, f.1)) ns' w.nodes_fit),
      parts_fit g _ w,
    )

-- Every well-formed graph may be activated: the validation returns, and finds no hard error.
pub WellFormed-accepted :
    (v : Value)
    → WellFormed v
    → (r : ValidationResult) × (validate_graph v ≡ ok r) × (passed r ≡ true)
unfolding validate_graph passed
WellFormed-accepted v (g, ns, is, nodes, w) = (
  record { errors = []; warnings = graph_warnings (items g) (items ns) },
  rw is (rw nodes (nodes_fit (items g) ns w)),
  refl,
)
