-- ===== src/Query.antt =====
-- The search queries of internal/warnly/project.go and internal/svc/project/project.go.
pub mod Parse
pub mod Agree
pub mod RoundTrip
mod Tests
