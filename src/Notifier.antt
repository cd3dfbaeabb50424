-- ===== src/Notifier.antt =====
-- internal/notifier/webhook.go: the secret of a webhook, and the requests that carry an alert.
pub mod Secret
pub mod Send
mod Tests
