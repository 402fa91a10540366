-- ===== src/Observability.antt =====
-- internal/observability: the events that the operator records, and the collectors of its metrics.
pub mod Events
pub mod Collectors
