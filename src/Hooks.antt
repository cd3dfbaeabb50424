-- ===== src/Hooks.antt =====
-- internal/svc/notification/notification.go: the webhook of a team.
pub mod Config
pub mod Saved
mod Tests
