-- ===== src/Lifecycle.antt =====
-- meeting-api's lifecycle package.
pub mod Types
pub mod Logs
pub mod Machine
pub mod Graph
pub mod Sink
pub mod Stop
pub mod Reconcile
