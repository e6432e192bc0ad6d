-- ===== src/Reconcilers.antt =====
-- pkg/reconcilers
pub mod Consts
pub mod Version
pub mod Outcome
pub mod Args
pub mod EnvVars
pub mod Pod
pub mod Action
pub mod Status
pub mod Resource
pub mod Components
pub mod Safety
pub mod Permissions
pub mod Privilege
pub mod Wiring
pub mod Report
pub mod Presence
pub mod Success
pub mod Errors
