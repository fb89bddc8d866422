-- ===== src/Tasks.antt =====
-- apps/app/modules/task: the table of task runs, the tracking of a task's life, and the watchdog.
pub mod Runs
pub mod Tracking
pub mod Watchdog
mod Tests
