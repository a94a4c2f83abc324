-- ===== src/Tests.antt =====
-- Runs at concrete inputs, and each theorem of the results at an input that meets its conditions.
mod Sample
mod Versions
mod MetricsRuns
mod NormalizeRuns
mod ProducerRuns
mod QualityRuns
mod ContractRuns
mod ServingRuns
mod BrokerRuns
mod BoundaryRuns
mod LakeRuns
mod PipelineRuns
