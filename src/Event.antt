-- ===== src/Event.antt =====
-- Events: internal/warnly/envelope.go and the row that internal/svc/event/event.go stores.
pub mod Body
pub mod Frames
pub mod Row
pub mod Uuid
pub mod Hash
pub mod Ingest
pub mod Delivery
pub mod Aligned
pub mod Pairs
pub mod Breaker
mod Tests
