-- ===== src/Api.antt =====
-- api/v1alpha1/optimizationpolicy_types.go: the policy resource, its filters and its validation.
pub mod WorkloadTypes
pub mod Types
pub mod Status
pub mod Validation
