-- ===== src/Db.antt =====
-- The MySQL tables behind internal/mysql, and the statements on them. A statement fails as a
-- whole or takes effect as a whole; `AUTO_INCREMENT` gives a number that no row has.
pub mod Tables
pub mod Statements
pub mod Board
pub mod UnitOfWork
pub mod Issues
