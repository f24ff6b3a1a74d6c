-- ===== src/Jobs.antt =====
-- internal/jobs: the scheduler of the background jobs, and internal/chinatime for its calendar.
pub mod Calendar
pub mod System
pub mod Claim
pub mod Scheduler
