-- ===== src/Postgres.antt =====
-- The PostgreSQL backend: disintegrate-postgres.
pub mod Criteria
pub mod Append
pub mod Session
pub mod Snapshotter
pub mod Listener
pub mod Reading
pub mod Indexer
