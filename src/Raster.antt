-- ===== src/Raster.antt =====
-- Reading rasters: crates/raster-h3-core/src/raster.
pub mod Remote
pub mod Reader
pub mod Prefetch
pub mod Predictor
mod Tests
