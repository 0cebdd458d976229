-- ===== src/Collector.antt =====
-- internal/collector/collector.go: the Prometheus exposition format, and the fallback to it. A text is
-- its bytes.
pub mod Runes
pub mod Labels
pub mod Prometheus
pub mod Response
pub mod Json
mod Tests
