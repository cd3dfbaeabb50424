-- ===== src/Session.antt =====
-- internal/session/session.go: signed cookies, the store that keeps sessions in them, and the
-- registry of a request.
pub mod Runtime
pub mod Cookie
pub mod RoundTrip
pub mod Genuine
pub mod Name
pub mod Store
pub mod StoreLaws
pub mod Toy
mod Tests
