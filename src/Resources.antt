-- ===== src/Resources.antt =====
-- pkg/resources: builders of the Kubernetes objects and helpers on maps and names.
pub mod Maps
pub mod Names
pub mod Rbac
pub mod Services
pub mod Deployments
