-- ===== src/RemoteWrite.antt =====
-- internal/remotewrite/handler.go: the decoding of a request, its samples' way into the database, and
-- the HTTP handler.
pub mod Varint
pub mod Parse
pub mod Ingest
pub mod Handler
mod Tests
