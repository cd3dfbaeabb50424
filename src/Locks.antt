-- ===== src/Locks.antt =====
-- The table `alert_lock` (migrations/mysql/0_initial.up.sql) and the three statements on it in
-- internal/mysql/notification.go: AcquireAlertLock, ReleaseAlertLock and CleanupExpiredLocks.
-- A time is a number of nanoseconds; `NOW()` is the database's, once for each statement.
pub mod Table
pub mod Rows
pub mod Exclusion
pub mod Refinement
mod Tests
