-- ===== src/JobScheduler.antt =====
-- "04. Job Scheduler": jobs.h and jobsched.c.
pub mod Job
pub mod Queue
pub mod Remove
pub mod Select
pub mod Steps
pub mod Shell
mod Tests
