-- ===== src/Roles.antt =====
-- apps/app/modules/role: the permission groups, the closure of a role's permissions, and the roles.
pub mod Groups
pub mod Permissions
pub mod Rows
pub mod Tables
pub mod Service
pub mod Samples
mod Tests
