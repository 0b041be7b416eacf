-- ===== src/Flows/Validator.antt =====
-- backend/app/flows/validator.py: the structural validator of a call-flow graph. The messages of
-- the source are constructors that carry what the message prints. `Ports` has the port tables,
-- `Errors` the hard errors, `Warnings` and `Cycles` the warnings; the other modules hold proofs.
pub mod Ports
pub mod Errors
pub mod Warnings
pub mod Cycles
pub mod WellFormed
mod Nodes
mod Entries
pub mod Acceptance
pub mod Worklist
pub mod Reachability
mod CycleSteps
pub mod CycleSearch
pub mod Acyclic
mod Examples
use owen_main.Common.{List, [], ◌∷◌, ◌++◌, Result, ok, ◌>>=◌, Bool, true, false}
use owen_main.Common.Json.{Value, dict, Dict, items, get}
use owen_main.Flows.Validator.Errors.{
  Problem, graph_not_object, graph_has_no_nodes, shape_errors, entry_ids, graph_errors,
}
use owen_main.Flows.Validator.Warnings.{Warning, unwired_warnings, unreachable_warnings}
use owen_main.Flows.Validator.Cycles.{cycle_warnings}

pub record ValidationResult : Type 0 where
  pub errors : List Problem
  pub warnings : List Warning

abbrev only_errors : List Problem → ValidationResult
only_errors es = record { errors = es; warnings = [] }

-- `ValidationResult.ok`: warnings do not block.
unfoldable pub passed : ValidationResult → Bool
passed r = elim r.errors [ [] ↦ true | _ ∷ _ ↦ false ]

unfoldable pub graph_warnings : Dict → Dict → List Warning
graph_warnings g nodes =
    unwired_warnings nodes
    ++ (unreachable_warnings nodes (entry_ids nodes) (get "default_fallback" g)
        ++ cycle_warnings nodes)

-- What follows the shape guard; the guard's errors end the validation.
unfoldable pub after_shape : Dict → Dict → List Problem → Result ValidationResult
after_shape g nodes (e ∷ es) = ok (only_errors (e ∷ es))
after_shape g nodes [] = do
  es ← graph_errors g nodes
  ok (record { errors = es; warnings = graph_warnings g nodes })

unfoldable pub validate_nodes : Dict → Value → Result ValidationResult
validate_nodes g (dict fs) = elim (items fs) [
  | [] ↦ ok (only_errors (graph_has_no_nodes ∷ []))
  | n ∷ ns ↦ after_shape g (n ∷ ns) (shape_errors (n ∷ ns))
]
validate_nodes g _ = ok (only_errors (graph_has_no_nodes ∷ []))

unfoldable pub validate_graph : Value → Result ValidationResult
unfolding after_shape validate_nodes
validate_graph (dict g) = validate_nodes (items g) (get "nodes" (items g))
validate_graph _ = ok (only_errors (graph_not_object ∷ []))
