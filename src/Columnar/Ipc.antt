-- ===== src/Columnar/Ipc.antt =====
-- The writer of the binary stream, crates/raster-h3-core/src/columnar/ipc.rs: each function gives
-- the bytes that it appends. The writer itself is a byte vector, so writing does not fail.
pub mod Reader
pub mod Reads
pub mod Columns
pub mod RoundTrip
pub mod Stream
pub mod Progress
use raster_h.Columnar.Utf8.{ascii}
use raster_h.Columnar.Schema.{
  ArrowDataType, uint64, int64, uint8, float64, boolean, utf8, binary, ColumnField, ColumnSchema,
}
use raster_h.Columnar.Array.{
  ColumnArray, Validity, uint64s, int64s, uint8s, float64s, booleans, utf8s, binaries, validity,
}
use raster_h.Columnar.Batch.{RecordBatch}
use raster_h.Common.{
  ℕ, ◌+◌, ◌%◌, ◌^◌, Bool, true, false, none, some, List, [], ◌∷◌, ◌++◌, map, length, ◌==◌, Result,
  ok, err,
}
use raster_h.Common.Bytes.{to_le_bytes, i64_bits}

abbrev pub ipc_magic : List ℕ
ipc_magic = ascii "RH3IPC01"

-- `u8::from(bool)`.
unfoldable pub bool_byte : Bool → ℕ
bool_byte true = 1
bool_byte false = 0

-- `n as u32` on the way.
unfoldable pub write_u32 : ℕ → List ℕ
write_u32 v = to_le_bytes 4 (v % 2 ^ 32)

unfoldable pub encode_dtype : ArrowDataType → ℕ
encode_dtype uint64 = 1
encode_dtype int64 = 2
encode_dtype uint8 = 3
encode_dtype float64 = 4
encode_dtype boolean = 5
encode_dtype utf8 = 6
encode_dtype binary = 7

unfoldable pub write_validity : Validity → List ℕ
unfolding write_u32
write_validity none = 0 ∷ []
write_validity (some v) = 1 ∷ write_u32 (length v) ++ map bool_byte v

-- A loop that writes each value.
unfoldable pub write_each {ℓ} : {A : Type ℓ} → (A → List ℕ) → List A → List ℕ
write_each write [] = []
write_each write (v ∷ vs) = write v ++ write_each write vs

-- A byte string behind its length.
unfoldable pub write_bytes : List ℕ → List ℕ
write_bytes b = write_u32 (length b) ++ b

unfoldable pub write_values : ColumnArray → List ℕ
write_values (uint64s values _) = write_each (to_le_bytes 8) values
write_values (int64s values _) = write_each (λ v. to_le_bytes 8 (i64_bits v)) values
write_values (uint8s values _) = values
write_values (float64s values _) = write_each (to_le_bytes 8) values
write_values (booleans values _) = map bool_byte values
write_values (utf8s values _) = write_each write_bytes values
write_values (binaries values _) = write_each write_bytes values

unfoldable pub write_column : ColumnArray → List ℕ
write_column col = write_validity (validity col) ++ write_values col

unfoldable pub write_field : ColumnField → List ℕ
write_field f = write_bytes f.name ++ (encode_dtype f.data_type ∷ bool_byte f.nullable ∷ [])

unfoldable pub write_header : ColumnSchema → List ℕ
write_header schema =
    ipc_magic ++ (write_u32 (length schema.fields) ++ write_each write_field schema.fields)

-- The marker 1, the row count and the columns.
unfoldable pub write_batch : RecordBatch → List ℕ
write_batch b = 1 ∷ write_u32 b.num_rows ++ write_each write_column b.columns

-- The loop over the batches, from what is written and counted so far. A batch that failed ends it,
-- and what was written before stays written; a batch with no row is skipped.
pub write_batches : List ℕ → ℕ → List (Result RecordBatch) → List ℕ × Result ℕ
write_batches w total_rows [] = (w ++ (0 ∷ []), ok total_rows)
write_batches w total_rows (err e ∷ batches) = (w, err e)
write_batches w total_rows (ok b ∷ batches) = elim (b.num_rows == 0) [
  | true ↦ write_batches w total_rows batches
  | false ↦ write_batches (w ++ write_batch b) (total_rows + b.num_rows) batches
]

unfoldable pub write_ipc_stream :
    List ℕ → ColumnSchema → List (Result RecordBatch) → List ℕ × Result ℕ
unfolding write_batches write_batch write_column write_values write_validity write_bytes write_each
    write_u32 write_header write_field encode_dtype bool_byte validity
write_ipc_stream writer schema batches = write_batches (writer ++ write_header schema) 0 batches
