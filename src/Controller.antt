-- ===== src/Controller.antt =====
-- internal/controller: the reconciler of policies and the processor of workloads.
pub mod Retry
pub mod Conditions
pub mod Requeue
pub mod StatusUpdates
pub mod Processor
pub mod Selection
pub mod Reconcile
