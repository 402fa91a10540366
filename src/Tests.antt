-- ===== src/Tests.antt =====
-- Concrete inputs: runs of the model, and each theorem at an input that meets its hypotheses.
mod Data
mod ApiExamples
mod RecommendationExamples
mod SelectionExamples
mod CacheExamples
mod ApplicationExamples
mod ControllerExamples
mod MetricsExamples
mod ProcessorExamples
mod ReconcileExamples
mod RequestExamples
mod ObservabilityExamples
mod ProviderExamples
mod StartupExamples
