-- ===== src/Columnar.antt =====
-- The columnar record batches of crates/raster-h3-core/src/columnar: schemas, arrays and batches
-- (mod.rs), and their binary stream (ipc.rs).
pub mod Utf8
pub mod Schema
pub mod Array
pub mod Batch
pub mod Ipc
mod Tests
