-- ===== src/Detect.antt =====
-- apps/detection-engine: what matches indicators, builds alerts and forwards them.
pub mod Matcher
pub mod Alert
pub mod Engine
pub mod EventMap
pub mod Feedback
pub mod Composite
pub mod DnsCache
pub mod Ingest
pub mod TlsHeuristics
pub mod Pipeline
mod Examples
