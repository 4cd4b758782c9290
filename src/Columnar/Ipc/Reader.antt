-- ===== src/Columnar/Ipc/Reader.antt =====
-- The reader of the binary stream, crates/raster-h3-core/src/columnar/ipc.rs. A source is the list
-- of its bytes that are still to be read, and `read_exact` fails on a source that is too short.
-- A read that fails gives no source back: the stream reader stops then and reads no further.
use raster_h.Columnar.Utf8.{from_utf8, from_utf8_lossy}
use raster_h.Columnar.Schema.{
  ArrowDataType, uint64, int64, uint8, float64, boolean, utf8, binary, ColumnField, ColumnSchema,
  field,
}
use raster_h.Columnar.Array.{
  ColumnArray, Validity, uint64s, int64s, uint8s, float64s, booleans, utf8s, binaries,
}
use raster_h.Columnar.Batch.{RecordBatch, try_new}
use raster_h.Columnar.Ipc.{ipc_magic}
use raster_h.Common.{
  ℕ, zero, suc, Bool, true, false, ◌&&◌, Option, none, some, List, [], ◌∷◌, map, length, take, drop,
  leb, ◌==◌, if◌then◌else◌, Result, ok, err, RasterH3Error, invalid_parameter, io_unexpected_eof,
}
use raster_h.Common.Bytes.{from_le_bytes, i64_of_bits}

-- Reads from the front of the source.
abbrev pub Reader {ℓ} : Type ℓ → Type ℓ
Reader A = List ℕ → Result (A × List ℕ)

infixl 5 ◌>>=◌ ◌>>◌
abbrev pub ◌>>=◌ {ℓ κ} : {A : Type ℓ} {B : Type κ} → Reader A → (A → Reader B) → Reader B
◌>>=◌ m f bs = elim (m bs) [ err e ↦ err e | ok (a, rest) ↦ f a rest ]

abbrev pub ◌>>◌ {ℓ} : {B : Type ℓ} → Reader (Unit {0}) → Reader B → Reader B
m >> k = m >>= λ _. k

abbrev pub pure {ℓ} : {A : Type ℓ} → A → Reader A
pure a bs = ok (a, bs)

abbrev pub raise {ℓ} : {A : Type ℓ} → RasterH3Error → Reader A
raise e bs = err e

unfoldable pub read_exact : ℕ → Reader (List ℕ)
read_exact n bs = if leb n (length bs) then ok (take n bs, drop n bs) else err io_unexpected_eof

unfoldable pub read_u8 : Reader ℕ
read_u8 [] = err io_unexpected_eof
read_u8 (b ∷ bs) = ok (b, bs)

unfoldable pub read_u32 : Reader ℕ
read_u32 = do b ← read_exact 4; pure (from_le_bytes b)

unfoldable pub read_u64 : Reader ℕ
read_u64 = do b ← read_exact 8; pure (from_le_bytes b)

unfoldable pub decode_dtype : ℕ → Reader ArrowDataType
decode_dtype tag =
    if tag == 1
    then pure uint64
    else if tag == 2
    then pure int64
    else if tag == 3
    then pure uint8
    else if tag == 4
    then pure float64
    else if tag == 5
    then pure boolean
    else if tag == 6
    then pure utf8
    else if tag == 7
    then pure binary
    else raise invalid_parameter

-- `for _ in 0..n { values.push(read()?) }`
unfoldable pub read_many {ℓ} : {A : Type ℓ} → ℕ → Reader A → Reader (List A)
read_many zero read = pure []
read_many (suc n) read = do v ← read; vs ← read_many n read; pure (v ∷ vs)

-- `b != 0`
abbrev pub nonzero : ℕ → Bool
nonzero b = if b == 0 then false else true

unfoldable pub read_validity : Reader Validity
read_validity = do
  has ← read_u8
  if has == 0
      then pure none
      else do len ← read_u32; bytes ← read_exact len; pure (some (map nonzero bytes))

-- A byte string behind its length.
unfoldable pub read_bytes : Reader (List ℕ)
read_bytes = do len ← read_u32; read_exact len

unfoldable pub read_values : ArrowDataType → ℕ → Validity → Reader ColumnArray
read_values uint64 n v = do values ← read_many n read_u64; pure (uint64s values v)
read_values int64 n v = do
  values ← read_many n (do b ← read_exact 8; pure (i64_of_bits (from_le_bytes b)))
  pure (int64s values v)
read_values uint8 n v = do values ← read_exact n; pure (uint8s values v)
read_values float64 n v = do
  values ← read_many n (do b ← read_exact 8; pure (from_le_bytes b))
  pure (float64s values v)
read_values boolean n v = do bytes ← read_exact n; pure (booleans (map nonzero bytes) v)
read_values utf8 n v = do
  values ← read_many n (do b ← read_bytes; pure (from_utf8_lossy b))
  pure (utf8s values v)
read_values binary n v = do values ← read_many n read_bytes; pure (binaries values v)

unfoldable pub read_columns : List ColumnField → ℕ → Reader (List ColumnArray)
read_columns [] n = pure []
read_columns (f ∷ fs) n = do
  v ← read_validity
  col ← read_values f.data_type n v
  cols ← read_columns fs n
  pure (col ∷ cols)

unfoldable pub name_or_error : Option (List ℕ) → Reader (List ℕ)
name_or_error none = raise invalid_parameter
name_or_error (some name) = pure name

unfoldable pub read_field : Reader ColumnField
unfolding name_or_error
read_field = do
  name_bytes ← read_bytes
  name ← name_or_error (from_utf8 name_bytes)
  tag ← read_u8
  dt ← decode_dtype tag
  nullable ← read_u8
  pure (field name dt (nonzero nullable))

bytes_eq : List ℕ → List ℕ → Bool
bytes_eq [] [] = true
bytes_eq [] (b ∷ bs) = false
bytes_eq (a ∷ as') [] = false
bytes_eq (a ∷ as') (b ∷ bs) = (a == b) && bytes_eq as' bs

unfoldable pub read_schema : Reader ColumnSchema
read_schema = do
  num_fields ← read_u32
  fields ← read_many num_fields read_field
  pure (record { fields = fields })

-- The header: the magic bytes and the schema.
unfoldable pub read_header : Reader ColumnSchema
unfolding bytes_eq read_schema
read_header = do
  magic ← read_exact 8
  if bytes_eq magic ipc_magic then read_schema else raise invalid_parameter

unfoldable pub lift_batch : Result RecordBatch → Reader (Option RecordBatch)
lift_batch (ok b) = pure (some b)
lift_batch (err e) = raise e

unfoldable pub read_rows : ColumnSchema → Reader (Option RecordBatch)
unfolding lift_batch
read_rows schema = do
  num_rows ← read_u32
  columns ← read_columns schema.fields num_rows
  lift_batch (try_new schema columns)

-- `IpcStreamReader::read_batch`: `none` at the end marker.
unfoldable pub read_batch : ColumnSchema → Reader (Option RecordBatch)
unfolding read_rows
read_batch schema = do
  marker ← read_u8
  if marker == 0
      then pure none
      else if marker == 1
      then read_rows schema
      else raise invalid_parameter

pub record IpcStreamReader : Type 0 where
  pub reader : List ℕ
  pub schema : ColumnSchema
  pub done : Bool

-- `IpcStreamReader::new`
unfoldable pub new : List ℕ → Result IpcStreamReader
new bytes = elim (read_header bytes) [
  | err e ↦ err e
  | ok (schema, rest) ↦ ok (record { reader = rest; schema = schema; done = false })
]

unfoldable pub after_batch :
    IpcStreamReader
    → Result (Option RecordBatch × List ℕ)
    → Option (Result RecordBatch) × IpcStreamReader
after_batch s (err e) = (some (err e), record s { done = true })
after_batch s (ok (none, rest)) = (none, record s { reader = rest; done = true })
after_batch s (ok (some b, rest)) = (some (ok b), record s { reader = rest })

-- `Iterator::next`: after the end or an error the stream is done.
unfoldable pub next : IpcStreamReader → Option (Result RecordBatch) × IpcStreamReader
unfolding after_batch
next s = if s.done then (none, s) else after_batch s (read_batch s.schema s.reader)

abbrev pub Collected : Type 0
Collected = Option (Result (List RecordBatch × List ℕ))

unfoldable pub collect_cons : RecordBatch → Collected → Collected
collect_cons b none = none
collect_cons b (some (err e)) = some (err e)
collect_cons b (some (ok (bs, rest))) = some (ok (b ∷ bs, rest))

unfoldable pub collect_item :
    Option (Result RecordBatch) × IpcStreamReader → (IpcStreamReader → Collected) → Collected
collect_item (none, s) more = some (ok ([], s.reader))
collect_item (some (err e), s) more = some (err e)
collect_item (some (ok b), s) more = collect_cons b (more s)

-- `stream.collect::<Result<Vec<_>>>()` on fuel; `none` means that the fuel ran out.
unfoldable pub collect : ℕ → IpcStreamReader → Collected
unfolding collect_item collect_cons
collect zero s = none
collect (suc fuel) s = collect_item (next s) (λ s'. collect fuel s')

-- The schema, the batches and the bytes behind the stream. A batch takes a byte at least, so as
-- many rounds as there are bytes, and one, are enough.
unfoldable pub read_ipc_stream : List ℕ → Option (Result (ColumnSchema × List RecordBatch × List ℕ))
unfolding new next collect read_header read_batch read_columns read_values read_field read_bytes
    read_validity read_many decode_dtype read_u64 read_u32 read_u8 read_exact
read_ipc_stream bytes = elim (new bytes) [
  | err e ↦ some (err e)
  | ok stream ↦ elim (collect (suc (length stream.reader)) stream) [
    | none ↦ none
    | some (err e) ↦ some (err e)
    | some (ok (batches, rest)) ↦ some (ok (stream.schema, batches, rest))
  ]
]
