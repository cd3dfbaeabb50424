-- ===== src/Olap.antt =====
-- internal/ch/ch.go: the analytics store.
pub mod Statement
pub mod Marks
pub mod Issues
pub mod Insert
pub mod Events
pub mod Pages
pub mod Tags
pub mod System
pub mod Requests
pub mod Bound
pub mod Values
pub mod Columns
pub mod Store
pub mod Rows
mod Tests
