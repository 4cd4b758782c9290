-- ===== src/Lib.antt =====
-- raster_h3 aggregates rasters over H3 cells and writes the results as columnar batches, streams and
-- PMTiles archives. This library models parts of its core crate and of its DuckDB extension that
-- keep state or bytes, and proves what they promise.
--
-- The parts, by the directory of crates/raster-h3-core/src that holds the code:
--
-- columnar/mod.rs, ipc.rs - Columnar. Schema, Array and Batch are the data and the operations of
-- mod.rs (try_new, project, slice, column_by_name); Ipc is the writer of the binary stream
-- (write_ipc_stream), Ipc.Reader its reader (IpcStreamReader, read_ipc_stream). The reader's batches
-- are built by try_new, which is how the two files meet. Utf8 is the standard library's from_utf8 and
-- from_utf8_lossy. A float is its 64-bit pattern. Streams are byte lists; a writer's own failures are
-- not modelled. collect runs on fuel, one round more than there are bytes, and a batch takes a byte.
--
-- aggregator/remap.rs - Aggregator.Remap: CategoryRemapper with new, remap and remap_fallback.
-- Remap.Rules says what a list of rules means.
--
-- raster/http_range.rs - Raster.Remote: ByteCache and RemoteHttpSource with from_transport,
-- fetch_range, read_range_into, read_range and read_exact_range; Raster.Reader: HttpRangeReader.
-- A RemoteTransport is a parameter; IsServing is what it promises. A read is an Option of a Result: none is a panic (a slice out of
-- bounds). The mutex around the blocks is not modelled: a read is one step.
--
-- pmtiles/writer.rs - Pmtiles: Varint (write_varint), Hilbert (zxy_to_tile_id, tile_id_to_zxy),
-- Directory (encode_directory, build_leaf_directories) and Writer (PmtilesWriter: new, set_metadata,
-- add_compressed_tile, add_tile, finish_into). The writer calls the ids when a tile is added, and the
-- directories, which call the varints, when it finishes. The compressor of libdeflater and the f64
-- operations of the header are parameters; the spill file is a byte list whose writes succeed. The
-- varint loop has nine rounds, enough for a u64; chunks has one for each entry. Directory.Decode and
-- Writer.RoundTrip read archives by the format's description.
--
-- pmtiles/mvt.rs - Pmtiles.Mvt: Value (MvtValue, write_tag, write_string_field, write_to), Properties
-- (PropertyFilter with parse, FeatureProperties with for_each_filtered), Layer (MvtFeature, MvtLayer
-- and its add functions) and Encode (MvtLayer::encode: the tables of keys and values, the geometry
-- commands, the messages). The layer is filled by the add functions and then encoded; the varints are
-- those of Pmtiles.Varint, whose text the file repeats. from_mercator, which projects a boundary by
-- floating-point arithmetic, is a parameter; i32 coordinates are kept as 32 bits and wrap as in an
-- optimised build. Message and Reader read tiles by the format's description, on fuel for which the
-- length of the bytes is enough. polar_cap, orient_exterior and add_hexagon, which place the points,
-- are left out.
--
-- raster/predictor.rs - Raster.Predictor: apply_horizontal_predictor, ChunkEncoding with validate and
-- unpack_integer_samples; Predictor.Floats: fp_predict_f32 and fp_predict_f64, unpack_f32 and
-- unpack_f64, which differ in the bytes of a float. The code is that of a little-endian machine
-- without NEON; the row loops take each row from the front of what the rows before it leave. A sample
-- is its bits; 1.0 - x on floats is a parameter. Chunks that an encoder wrote are defined beside the
-- theorems (Predictor.Integers, Predictor.Planes).
--
-- raster/prefetch.rs - Raster.Prefetch: OrderedPrefetchQueue. A step is what a call does while it holds
-- the lock; push and drain_into may end in a wait, and drain_into goes on from there by another step
-- (drain_into again, or resume_fill). Prefetch.Runs is the step relation and its runs. The
-- notifications only wake threads, and the hooks for tests are left out.
--
-- aggregator/multi_horizon/lifecycle.rs - Aggregator.Lifecycle: StreamLifecycle and OutputBuffer.
--
-- aggregator/multi_horizon/spill.rs - Aggregator.Spill: SpillRuns and the reader of runs, over the
-- interface SpillAccumulator, whose law is that a proper state within the limit is read back as it was
-- written. A run is its bytes; the limit is a parameter, the directory of the files is left out. The
-- loop of merge runs on fuel, one round for every record of both runs, which is enough since each round
-- writes a record and reads at least one. Spill.Records reads runs as lists of records, Spill.Made says
-- how they come from the pushed ones: an accumulator is a merge of those under its key, with any
-- brackets. Spill.Pushed is the relation of what pushes lead to, and a Weight there is any measure that
-- merging accumulators adds up in order; so neither speaks of a float.
-- Spill.Continuous is the state of an H3Accumulator (aggregator/accumulator.rs) with its QuantileSketch
-- (aggregator/quantiles.rs), floats as their bits; sizes of structs and capacities of hash maps are
-- parameters. Spill.Continuous.Statistics fills the interface for accumulators without a sketch, with
-- merge as a parameter; one with a sketch does not keep the law of the interface, since count has a
-- bound of its own. Spill.Categorical is the state of a CategoricalAccumulator.
--
-- aggregator/categorical.rs - Aggregator.Categorical: CategoricalAccumulator with its 16 inline slots and
-- the heap they spill to. The arithmetic of f64 is the interface FloatOps.
--
-- encoding/fast_hex.rs - Encoding.Hex: fast_hex_u64, and parse_hex_u64 on a text that trim has left.
--
-- crates/raster-h3-duckdb/src/functions/bind_utils/record_queue.rs - Duckdb.Queue:
-- ConcurrentRecordQueue. The streamer and its drain are parameters: what a drain emits, in order,
-- and its answer.
--
-- error.rs - Common.Outcome: the error variants that these parts raise, without their texts but for the
-- reason of a failed stream.
--
-- Machine integers are natural numbers with the wrap-around of the source written out; i64 is an
-- integer (Common.Int). Maps are association lists (Common.Maps), bytes numbers below 256
-- (Common.Bytes).
--
-- Not modelled: the aggregation over H3 cells and the projections, which are float geometry of
-- libraries; the rest of GeoTIFF, Parquet and HTTP, which call libraries; the bindings.
pub mod Common
pub mod Columnar
pub mod Aggregator
pub mod Raster
pub mod Pmtiles
pub mod Duckdb
pub mod Encoding
