-- ===== src/Worker.antt =====
-- internal/worker/alert_worker.go: the worker that triggers and resolves alerts.
pub mod Check
pub mod Frame
pub mod Settled
pub mod Locking
pub mod Verdict
pub mod Decision
pub mod Lifecycle
mod Tests
