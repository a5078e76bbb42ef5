-- ===== src/Tests.antt =====
-- The code on concrete inputs.
mod CrossAccountRuns
mod NotificationTargetRuns
mod MultipartRuns
mod LifecycleRuns
mod NotificationConfigRuns
mod PolicyAnalyzerRuns
mod EvidenceRuns
mod CliVersionRuns
mod CliKeyRuns
mod CliInstallRuns
mod ThrottleRuns
mod EtagParserRuns
