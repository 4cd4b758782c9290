-- ===== src/Encoding.antt =====
-- Text and binary encodings, crates/raster-h3-core/src/encoding.
pub mod Hex
mod Tests
