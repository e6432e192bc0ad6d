-- ===== src/Tests.antt =====
-- Concrete instances on which the theorems are applied.
mod Fixtures
mod Store
mod Resources
mod Status
mod Flows
mod Provision
mod Boot
mod Phases
mod Errors
mod Services
mod DeepCopy
mod Isolation
