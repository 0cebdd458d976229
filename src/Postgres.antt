-- ===== src/Postgres.antt =====
-- The database as internal/store/store.go and internal/remotewrite/handler.go see it through pgx:
-- parameterised statements, and an interface with what PostgreSQL documents of transactions and of
-- `INSERT … ON CONFLICT DO NOTHING`.
mod Statements
mod Tables
mod Interface
mod Batches
pub mod Memory
pub use Statements.*
pub use Tables.*
pub use Interface.*
pub use Batches.*
unfoldable pub use Statements.{bound}
unfoldable pub use Tables.{insert_all}
