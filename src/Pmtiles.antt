-- ===== src/Pmtiles.antt =====
-- The PMTiles v3 archive writer: crates/raster-h3-core/src/pmtiles/writer.rs.
pub mod Varint
pub mod Directory
pub mod Hilbert
pub mod Writer
pub mod Mvt
mod Tests
