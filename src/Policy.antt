-- ===== src/Policy.antt =====
-- internal/policy: the pure evaluator that decides what the worker should do.
pub mod Types
pub mod Rules
pub mod Evaluate
pub mod Precedence
pub mod Threats
pub mod Eligible
pub mod Outcome
pub mod Safety
pub mod Timers
pub mod Plain
mod Samples
