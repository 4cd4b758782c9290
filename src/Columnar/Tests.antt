-- ===== src/Columnar/Tests.antt =====
-- The theorems on the batches and streams of crates/raster-h3-core/src/columnar, applied.
use raster_h.Columnar.Utf8.{ascii, is_utf8_from, expect}
use raster_h.Columnar.Schema.{int64, utf8, field, ColumnSchema}
use raster_h.Columnar.Array.{int64s, utf8s, len, data_type}
use raster_h.Columnar.Batch.{
  RecordBatch, discriminant, check_columns, first_len, try_new, project, IsConsistent,
}
use raster_h.Columnar.Batch.Laws.{check_range, Projects, project-Projects}
use raster_h.Columnar.Ipc.{write_ipc_stream, write_header}
use raster_h.Columnar.Ipc.Reader.{
  IpcStreamReader, read_ipc_stream, next, after_batch, read_batch, read_u8,
}
use raster_h.Columnar.Ipc.RoundTrip.{IsSchema, IsStorableBatch}
use raster_h.Columnar.Ipc.Stream.{
  nonempty, row_count, written, read_ipc_stream-write_ipc_stream, write_ipc_stream-err,
}
use raster_h.Columnar.Ipc.Progress.{read_ipc_stream-ne-none}
use raster_h.Common.{
  ◌≡◌, ◌≢◌, refl, true, false, none, some, [], ◌∷◌, ◌++◌, map, length, ok, err, io_invalid_data,
  arith,
}
use raster_h.Common.Int.{pos, negsuc}

abbrev cells : ColumnSchema
cells = record { fields = field (ascii "id") int64 false ∷ field (ascii "name") utf8 true ∷ [] }

abbrev two_cells : RecordBatch
two_cells = record {
  schema = cells;
  columns =
      int64s (pos 7 ∷ negsuc 2 ∷ []) none
      ∷ utf8s (ascii "a" ∷ ascii "" ∷ []) (some (true ∷ false ∷ []))
      ∷ [];
  num_rows = 2;
}

abbrev no_cells : RecordBatch
no_cells = record { schema = cells; columns = int64s [] none ∷ utf8s [] none ∷ []; num_rows = 0 }

cells-IsSchema : IsSchema cells
unfolding is_utf8_from expect
cells-IsSchema = (((refl, omega arith), ((refl, omega arith), tt)), omega arith)

two_cells-IsStorableBatch : IsStorableBatch two_cells
unfolding is_utf8_from expect try_new check_columns first_len len data_type discriminant
two_cells-IsStorableBatch = record {
  built = refl;
  rows = omega arith;
  storable = (
    (((omega arith, omega arith), ((omega arith, omega arith), tt)), tt),
    ((((refl, omega arith), ((refl, omega arith), tt)), omega arith), tt),
  );
}

no_cells-IsStorableBatch : IsStorableBatch no_cells
unfolding try_new check_columns first_len len data_type discriminant
no_cells-IsStorableBatch = record {
  built = refl;
  rows = omega arith;
  storable = ((tt, tt), ((tt, tt), tt));
}

read_ipc_stream-write_ipc_stream_example :
    (read_ipc_stream
        ((write_ipc_stream [] cells (map ok (no_cells ∷ two_cells ∷ []))).0 ++ (9 ∷ []))
      ≡ some (ok (cells, nonempty (no_cells ∷ two_cells ∷ []), 9 ∷ [])))
    × ((write_ipc_stream [] cells (map ok (no_cells ∷ two_cells ∷ []))).1
        ≡ ok (row_count (no_cells ∷ two_cells ∷ [])))
read_ipc_stream-write_ipc_stream_example =
    read_ipc_stream-write_ipc_stream cells (no_cells ∷ two_cells ∷ []) (9 ∷ []) cells-IsSchema (
      record { same_schema = refl; storable = no_cells-IsStorableBatch },
      (record { same_schema = refl; storable = two_cells-IsStorableBatch }, tt),
    )

write_ipc_stream-err_example :
    write_ipc_stream [] cells (map ok (two_cells ∷ []) ++ (err io_invalid_data ∷ []))
    ≡ ([] ++ (write_header cells ++ written (nonempty (two_cells ∷ []))), err io_invalid_data)
write_ipc_stream-err_example = write_ipc_stream-err [] cells (two_cells ∷ []) io_invalid_data []

read_ipc_stream-ne-none_example : read_ipc_stream (ascii "RH3R") ≢ none
read_ipc_stream-ne-none_example = read_ipc_stream-ne-none (ascii "RH3R")

abbrev cut_stream : IpcStreamReader
cut_stream = record { reader = 2 ∷ []; schema = cells; done = false }

cut_stream-no_batch : (b : RecordBatch) → (next cut_stream).0 ≢ some (ok b)
unfolding next after_batch read_batch read_u8
cut_stream-no_batch b = λ q. cc

two_cells-IsConsistent : IsConsistent two_cells
unfolding len data_type
two_cells-IsConsistent = record { matches = (refl, refl, (refl, refl, tt)) }

project-Projects_example :
    Projects (check_range (length cells.fields) (1 ∷ 0 ∷ [])) 2 (project two_cells (1 ∷ 0 ∷ []))
project-Projects_example = project-Projects two_cells (1 ∷ 0 ∷ []) two_cells-IsConsistent
