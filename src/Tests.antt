-- ===== src/Tests.antt =====
-- Runs of the theorems at concrete inputs, one file for each part of the system.
mod CodecRuns
mod CollectorRuns
mod RetentionRuns
mod SpawnRuns
mod StopRuns
mod DeliveryRuns
mod LifecycleRuns
mod ReconcileRuns
mod RuntimeRuns
mod EnforcementRuns
mod GatewayRuns
mod IdentityRuns
mod DispatchRuns
mod RecordingRuns
mod SchedulingRuns
mod WebhookRuns
