-- ===== src/Service.antt =====
-- The services of internal/svc.
pub mod Alerts
pub mod Access
pub mod Listing
pub mod Strangers
mod Tests
