-- ===== src/Monitor.antt =====
-- apps/app/modules/monitor: the sessions of the task monitor, and the blocking of access requests.
pub mod Access
pub mod Session
mod Tests
