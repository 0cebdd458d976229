-- ===== src/Store.antt =====
-- internal/store/store.go
pub mod Nodes
pub mod Sample
pub mod Insert
pub mod Migrate
pub mod Rollup
mod Tests
