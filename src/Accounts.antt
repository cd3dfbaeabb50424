-- ===== src/Accounts.antt =====
-- Users and their passwords: internal/svc/session/session.go and the stores that it calls.
pub mod Users
pub mod SignIn
pub mod Proven
pub mod Created
mod Tests
