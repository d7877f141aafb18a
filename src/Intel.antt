-- ===== src/Intel.antt =====
-- apps/threat-intel-sync/internal/ioc: the indicators of compromise that the feeds deliver.
pub mod Indicator
pub mod Validate
pub mod Indicators
pub mod Export
mod Examples
