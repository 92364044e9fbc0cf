-- ===== src/Api.antt =====
-- internal/api: who may call the management API, and the sign-in of the dashboard.
pub mod OwnerStatus
pub mod Owner
pub mod SignIn
pub mod Request
pub mod Auth
pub mod Routes
pub mod Mode
mod Samples
