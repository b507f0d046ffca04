-- ===== src/Store.antt =====
-- The database of internal/engine (migrations.go): tables, rows and queries.
pub mod Rows
pub mod Query
