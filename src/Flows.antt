-- ===== src/Flows.antt =====
-- The call flow engine (backend/app/flows).
pub mod Validator
pub mod Variables
pub mod Interpreter
pub mod Transfer
pub mod Service
pub mod Dtmf
