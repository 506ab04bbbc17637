-- ===== src/Telemetry.antt =====
-- telemetry/: the optional telemetry service.
pub mod Daemon
pub mod Workspace
