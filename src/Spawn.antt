-- ===== src/Spawn.antt =====
-- meeting_api/bot_spawn/: a request for a bot becomes a meeting row, a workload and a session.
pub mod Rows
pub mod Guarded
pub mod Stale
pub mod Status
pub mod StopRoute
pub mod AutoJoin
pub mod Service
