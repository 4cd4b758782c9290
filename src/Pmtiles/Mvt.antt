-- ===== src/Pmtiles/Mvt.antt =====
-- Vector tiles: crates/raster-h3-core/src/pmtiles/mvt.rs.
pub mod Message
pub mod Value
pub mod Decoded
pub mod Properties
pub mod Layer
pub mod Encode
pub mod Reader
mod Tests
pub mod Packed
pub mod Geometry
pub mod Rings
pub mod Tables
pub mod Tags
pub mod Features
pub mod Messages
pub mod Encoded
pub mod RoundTrip
