-- ===== src/Collector.antt =====
-- meetings/services/meeting-api/src/meeting_api/collector/: live transcripts and their durable store.
pub mod DbWriter
pub mod Retention
pub mod Processed
