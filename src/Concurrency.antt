-- ===== src/Concurrency.antt =====
-- apps/app/utils/task_concurrency.py: the locks and the execution slots of background tasks, and
-- the scheduler that enqueues a task when it is due.
pub mod Keys
pub mod Resources
pub mod Scheduler
mod Tests
