-- ===== src/Raster/Prefetch/Progress.antt =====
-- That a call of `drain_into` of prefetch.rs takes what is ready.
