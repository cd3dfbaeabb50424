-- ===== src/Project.antt =====
-- internal/svc/project/project.go: projects, issues, discussions and assignments.
pub mod Duration
pub mod Types
pub mod Projects
pub mod Threads
pub mod Stack
pub mod Entries
pub mod Issues
pub mod Details
pub mod Reads
pub mod Atomic
pub mod Rights
pub mod Foreign
pub mod Pages
pub mod Period
pub mod Order
pub mod Insertion
pub mod Dashboard
pub mod Window
pub mod Buckets
pub mod Shown
mod ChartTests
mod Tests
