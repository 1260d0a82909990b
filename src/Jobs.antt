-- ===== src/Jobs.antt =====
-- jobs/: retry policies and the in-memory job queue with its workers.
pub mod RetryPolicy
pub mod Job
pub mod Leader
pub mod Cron
pub mod MemoryQueue
