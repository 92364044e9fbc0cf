-- ===== src/Controller.antt =====
-- internal/controller: the single writer of the lifecycle state.
pub mod Types
pub mod Timing
pub mod Stop
pub mod Load
pub mod Act
pub mod Observe
pub mod Step
pub mod Gate
pub mod Drain
pub mod Running
pub mod Same
pub mod Zombie
pub mod Invariant
pub mod Yield
pub mod Jobs
pub mod Results
pub mod Backend
pub mod Reach
pub mod Unsafe
pub mod Plain
mod Samples
mod Runs
