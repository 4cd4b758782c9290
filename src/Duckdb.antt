-- ===== src/Duckdb.antt =====
-- The DuckDB extension, crates/raster-h3-duckdb/src.
pub mod Queue
mod Tests
