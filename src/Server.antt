-- ===== src/Server.antt =====
-- The HTTP server of internal/server: who is let in, signing in, and the ingestion of envelopes.
pub mod Web
pub mod Auth
pub mod Login
pub mod Ingest
pub mod Envelopes
pub mod Keys
pub mod Sessions
pub mod Gates
pub mod SignedIn
mod Tests
