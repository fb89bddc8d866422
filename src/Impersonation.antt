-- ===== src/Impersonation.antt =====
-- apps/app/modules/impersonation: who acts as whom, one at a time.
pub mod Lock
pub mod Holder
pub mod World
pub mod Audits
pub mod Service
pub mod Requests
pub mod Events
pub mod Trail
mod Tests
