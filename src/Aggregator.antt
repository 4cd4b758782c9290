-- ===== src/Aggregator.antt =====
-- The aggregation of crates/raster-h3-core/src/aggregator.
pub mod Remap
pub mod Lifecycle
pub mod Categorical
pub mod Spill
mod Tests
