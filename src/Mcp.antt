-- ===== src/Mcp.antt =====
-- internal/mcp: the tools that answer queries on the stored samples. The package's alert rules are in
-- Alerts.
mod Tests
pub mod Select
pub mod Times
pub mod Queries
pub mod Sorting
pub mod Readings
pub mod Bottlenecks
pub mod Natural
pub mod Summary
pub mod Anomalies
pub mod Regression
pub mod Forecast
pub mod Reports
