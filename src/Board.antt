-- ===== src/Board.antt =====
-- The queries of internal/store/store.go over the tables, and a task as the service hands it out.
pub mod Settings
pub mod Queries
pub mod Writes
pub mod Views
