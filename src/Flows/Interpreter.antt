-- ===== src/Flows/Interpreter.antt =====
-- backend/app/flows/interpreter.py: one flow graph run against one live channel. `Effects` has the
-- calls and events that leave the interpreter, `Machine` its fields and its exceptions, `Hours`
-- the business hours, `Nodes` the node handlers, and `Run` the loop.
pub mod Effects
pub mod Machine
pub mod Hours
pub mod Nodes
pub mod Run
pub mod Traces
pub mod Quiet
pub mod Rounds
pub mod Made
pub mod Fates
pub mod Outcomes
mod Examples
