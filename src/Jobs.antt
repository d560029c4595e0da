-- ===== src/Jobs.antt =====
-- Background jobs (rapina/src/jobs): the rows of the table `rapina_jobs`, the statements on them,
-- and the worker.
pub mod Model
pub mod Backend
pub mod Retry
pub mod Config
pub mod Worker
pub mod Status
pub mod Lifecycle
pub mod WellFormed
pub mod Claims
pub mod Steps
pub mod Batch
pub mod Reaper
pub mod Budget
pub mod Rounds
pub mod Tests
