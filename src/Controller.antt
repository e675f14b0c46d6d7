-- ===== src/Controller.antt =====
-- pkg/controller: the reconciliation of InferenceServices, and of ModelLoaders.
pub mod Outcome
pub mod Cluster
pub mod Ensure
pub mod Objects
pub mod Lws
pub mod Router
pub mod Condition
pub mod Status
pub mod Reconcile
pub mod ModelLoader
pub mod Gang
pub mod Store
pub mod Converge
pub mod Settled
pub mod Failures
pub mod StatusFree
pub mod ServicesFree
pub mod Again
pub mod Forever
pub mod Conditions
pub mod Phases
pub mod Pods
pub mod Orphans
pub mod Replicas
pub mod Panics
pub mod Reports
pub mod Readiness
