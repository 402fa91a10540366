-- ===== src/Application.antt =====
-- internal/application/engine.go: whether a recommendation may be applied to a workload, the patch
-- that applies it, and the two ways to send the patch.
pub mod Values
pub mod Version
pub mod Resources
pub mod Decision
pub mod Limits
pub mod Patch
pub mod Apply
