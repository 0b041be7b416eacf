-- ===== src/Flows/Validator/Nodes.antt =====
-- The checks of single nodes, edges and the fallback against the well-formedness of each.
use owen_main.Common.{
  String, List, [], ◌∷◌, ◌≡◌, refl, inl, inr, true, some, ok, collect, collect-nil, nil-collect,
  ok_inj, both_nil, All-zip, All-imp, contains, All, arith, Bool-cases, Option-cases,
}
use owen_main.Common.Json.{Value, null, str, Dict, get, as_dict, hashable}
use owen_main.Flows.Validator.Ports.{node_types, allowed_ports, edges}
use owen_main.Flows.Validator.Errors.{
  Problem, resolves, shape_errors, node_items, port_errors, type_errors, target_error, node_errors,
  fallback_errors,
}
use owen_main.Flows.Validator.WellFormed.{IsObject, Resolves, NodeFits, FallbackFits}

Resolves-of-resolves : (nodes : Dict) (v : Value) → resolves v nodes ≡ true → Resolves nodes v
unfolding resolves
Resolves-of-resolves nodes (str s) h = (s, refl, h)
Resolves-of-resolves nodes _ h = cc

resolves_of_Resolves : (nodes : Dict) (v : Value) → Resolves nodes v → resolves v nodes ≡ true
unfolding resolves
resolves_of_Resolves nodes v r = rw (r.1) r.2

target_ok :
    (nodes : Dict) (nid : String) (e : String × Value)
    → target_error nodes nid e ≡ ok []
    → Resolves nodes e.1
unfolding target_error
target_ok nodes nid (p, t) h = Resolves-of-resolves nodes t (ground arith)

target_fits :
    (nodes : Dict) (nid : String) (e : String × Value)
    → Resolves nodes e.1
    → target_error nodes nid e ≡ ok []
unfolding target_error resolves hashable
target_fits nodes nid (p, t) r = rw r.1 (rw r.2)

abbrev PortAllowed : List String → String × Value → Type 0
PortAllowed allowed e = contains e.0 allowed ≡ true

ports_ok :
    (nid t : String) (allowed : List String) (es : Dict)
    → port_errors nid t allowed es ≡ []
    → All (PortAllowed allowed) es
unfolding port_errors
ports_ok nid t allowed [] h = tt
ports_ok nid t allowed ((p, v) ∷ es) h = ground (arith, ports_ok nid t allowed es)

ports_fit :
    (nid t : String) (allowed : List String) (es : Dict)
    → All (PortAllowed allowed) es
    → port_errors nid t allowed es ≡ []
unfolding port_errors
ports_fit nid t allowed [] h = refl
ports_fit nid t allowed ((p, v) ∷ es) h = ground (arith, ports_fit nid t allowed es)

-- The type is a known text, and each wired port is allowed for it.
abbrev TypeFits : Value → Dict → Type 0
TypeFits v node =
    (t : String) × (v ≡ str t)
    × (contains t node_types ≡ true)
    × All (PortAllowed (allowed_ports t node)) (edges node)

type_ok :
    (nid : String) (v : Value) (node : Dict) → type_errors nid v node ≡ ok [] → TypeFits v node
unfolding type_errors
type_ok nid (str t) node h = elim (Bool-cases (contains t node_types)) [
  | inl e ↦ (t, refl, e, ports_ok nid t (allowed_ports t node) (edges node) (ok_inj (rw e at h)))
  | inr e ↦ absurd (nothing (rw e at h))
]
  where
    nothing : ok (Problem.unknown_type nid (str t) ∷ []) ≡ ok [] → ⊥
    nothing q = cc
type_ok nid v node h = absurd (ground arith)

type_fits :
    (nid : String) (v : Value) (node : Dict) → TypeFits v node → type_errors nid v node ≡ ok []
unfolding type_errors
type_fits nid v node r =
    rw r.1 (rw r.2 (rw (ports_fit nid r.0 (allowed_ports r.0 node) (edges node) r.3)))

node_items-eq : (v : Value) (node : Dict) → as_dict v ≡ some node → node_items v ≡ node
unfolding node_items
node_items-eq v node e = rw (e, node_items)

pub node_ok :
    (nodes : Dict) (n : String × Value) (node : Dict)
    → as_dict n.1 ≡ some node
    → node_errors nodes n ≡ ok []
    → NodeFits nodes n
unfolding node_errors
node_ok nodes (nid, v) node e h =
    let same = node_items-eq v node e in
    let parts =
      both_nil (type_errors nid (get "type" (node_items v)) (node_items v))
        (collect (target_error nodes nid) (edges (node_items v))) h in
    let (t, is, known, ports) = type_ok nid _ _ (rw same at parts.0) in
    let targets = collect-nil (target_error nodes nid) (edges node) (rw same at parts.1) in
    (
      node,
      e,
      t,
      is,
      known,
      All-zip {Q = λ e. target_error nodes nid e ≡ ok []} (λ a p q. (p, target_ok nodes nid a q))
          (edges node) ports targets,
    )

pub node_fits : (nodes : Dict) (n : String × Value) → NodeFits nodes n → node_errors nodes n ≡ ok []
unfolding node_errors
node_fits nodes (nid, v) (node, e, t, is, known, fits) =
    let same = node_items-eq v node e in
    let ports = All-imp {Q = PortAllowed (allowed_ports t node)} (λ a p. p.0) (edges node) fits in
    let targets =
      All-imp {Q = λ e. target_error nodes nid e ≡ ok []} (λ a p. target_fits nodes nid a p.1)
        (edges node) fits in
    rw (same, type_fits nid (get "type" node) node (t, is, known, ports))
      (rw (nil-collect (target_error nodes nid) (edges node) targets))

pub shape_ok : (ns : Dict) → shape_errors ns ≡ [] → All IsObject ns
unfolding shape_errors
shape_ok [] h = tt
shape_ok ((nid, v) ∷ ns) h = elim (Option-cases (as_dict v)) [
  | inl e ↦ absurd (ground arith)
  | inr (d, e) ↦ ((d, e), shape_ok ns (ground arith))
]

pub shape_fits : (ns : Dict) → All IsObject ns → shape_errors ns ≡ []
unfolding shape_errors
shape_fits [] h = refl
shape_fits ((nid, v) ∷ ns) h = rw (h.0.1, shape_errors) (shape_fits ns h.1)

pub fallback_ok :
    (nodes : Dict) (v : Value) → fallback_errors nodes v ≡ ok [] → FallbackFits nodes v
unfolding fallback_errors
fallback_ok nodes null h = inl refl
fallback_ok nodes v h = inr (Resolves-of-resolves nodes v (ground arith))

pub fallback_fits :
    (nodes : Dict) (v : Value) → FallbackFits nodes v → fallback_errors nodes v ≡ ok []
unfolding fallback_errors resolves hashable
fallback_fits nodes v (inl e) = rw e
fallback_fits nodes v (inr r) = rw r.1 (rw r.2)
