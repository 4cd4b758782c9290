-- ===== src/Columnar/Ipc/RoundTrip.antt =====
-- The header and one batch of the stream of ipc.rs, written and read back.
use raster_h.Columnar.Utf8.{is_utf8, from_utf8, from_utf8-is_utf8}
use raster_h.Columnar.Schema.{
  ArrowDataType, uint64, int64, uint8, float64, boolean, utf8, binary, ColumnField, ColumnSchema,
}
use raster_h.Columnar.Batch.{RecordBatch, try_new}
use raster_h.Columnar.Batch.Laws.{try_new_iff}
use raster_h.Columnar.Ipc.{
  ipc_magic, write_u32, write_each, write_bytes, write_field, write_header, write_batch,
  write_column, encode_dtype, bool_byte,
}
use raster_h.Columnar.Ipc.Reader.{
  ◌>>=◌, read_exact, read_u8, read_u32, read_many, read_bytes, read_field, decode_dtype, nonzero,
  read_schema, name_or_error, read_header, read_rows, read_batch,
}
use raster_h.Columnar.Ipc.Reads.{
  Reads, Reads-bind, Reads-map, Reads-exact, Reads-u8, Reads-u32, Reads-bytes, Reads-many,
  nonzero-bool_byte,
}
use raster_h.Columnar.Ipc.Columns.{IsString, IsStorable, Reads-read_columns}
use raster_h.Common.{
  ℕ, ◌^◌, ◌<◌, ◌≡◌, refl, ap, ◌∙◌, true, some, List, [], ◌∷◌, ◌++◌, length, All, ok,
}

abbrev pub IsField : ColumnField → Type 0
IsField f = IsString f.name

abbrev pub IsSchema : ColumnSchema → Type 0
IsSchema schema = All IsField schema.fields × (length schema.fields < 2 ^ 32)

-- A batch that `try_new` built, of values that the stream can hold.
pub record IsStorableBatch (b : RecordBatch) : Type 0 where
  pub built : try_new b.schema b.columns ≡ ok b
  pub rows : b.num_rows < 2 ^ 32
  pub storable : All IsStorable b.columns

Reads-dtype : (dt : ArrowDataType) → Reads (decode_dtype (encode_dtype dt)) [] dt
unfolding decode_dtype encode_dtype
Reads-dtype uint64 rest = refl
Reads-dtype int64 rest = refl
Reads-dtype uint8 rest = refl
Reads-dtype float64 rest = refl
Reads-dtype boolean rest = refl
Reads-dtype utf8 rest = refl
Reads-dtype binary rest = refl

Reads-name : (s : List ℕ) → is_utf8 s ≡ true → Reads (name_or_error (from_utf8 s)) [] s
unfolding name_or_error
Reads-name s h rest = rw (from_utf8-is_utf8 s h) refl

Reads-field : (f : ColumnField) → IsField f → Reads read_field (write_field f) f
unfolding read_field write_field
Reads-field f h =
    let tag = encode_dtype f.data_type in
    let flag = bool_byte f.nullable in
    Reads-bind read_bytes _ (write_bytes f.name) (tag ∷ flag ∷ []) f.name f (Reads-bytes f.name h.1)
      (Reads-bind (name_or_error (from_utf8 f.name)) _ [] (tag ∷ flag ∷ []) f.name f
        (Reads-name f.name h.0)
        (Reads-bind read_u8 _ (tag ∷ []) (flag ∷ []) tag f (Reads-u8 tag) (
          Reads-bind (decode_dtype tag) _ [] (flag ∷ []) f.data_type f (Reads-dtype f.data_type)
            λ rest.
              Reads-map read_u8
                (λ x.
                  let g : ColumnField = record {
                    name = f.name;
                    data_type = f.data_type;
                    nullable = nonzero x;
                  } in
                  g)
                (flag ∷ []) flag (Reads-u8 flag) rest
              ∙ ap
                  (λ t.
                    let g : ColumnField = record {
                      name = f.name;
                      data_type = f.data_type;
                      nullable = t;
                    } in
                    ok (g, rest))
                  (nonzero-bool_byte f.nullable))))

Reads-schema :
    (schema : ColumnSchema)
    → IsSchema schema
    → Reads read_schema
        (write_u32 (length schema.fields) ++ write_each write_field schema.fields)
        schema
unfolding read_schema
Reads-schema schema h =
    Reads-bind read_u32 _ (write_u32 (length schema.fields)) (write_each write_field schema.fields)
      (length schema.fields) schema (Reads-u32 (length schema.fields) h.1)
      (Reads-map (read_many (length schema.fields) read_field) (λ fs. record { fields = fs })
        (write_each write_field schema.fields) schema.fields
        (Reads-many IsField read_field write_field Reads-field schema.fields h.0))

pub Reads-header :
    (schema : ColumnSchema) → IsSchema schema → Reads read_header (write_header schema) schema
unfolding read_header write_header
Reads-header schema h =
    Reads-bind (read_exact 8) _ ipc_magic
      (write_u32 (length schema.fields) ++ write_each write_field schema.fields) ipc_magic schema
      (Reads-exact 8 ipc_magic refl) (λ rest. Reads-schema schema h rest)

Reads-rows :
    (b : RecordBatch)
    → IsStorableBatch b
    → Reads
        (read_rows b.schema)
        (write_u32 b.num_rows ++ write_each write_column b.columns)
        (some b)
unfolding read_rows
Reads-rows b h =
    Reads-bind read_u32 _ (write_u32 b.num_rows) (write_each write_column b.columns) b.num_rows
      (some b) (Reads-u32 b.num_rows h.rows)
      λ rest.
        rw
          (
            Reads-read_columns b.num_rows b.schema.fields b.columns
                ((try_new_iff b).0 h.built).0.matches h.storable rest,
            ◌>>=◌,
          )
          (rw h.built refl)

pub Reads-batch :
    (b : RecordBatch) → IsStorableBatch b → Reads (read_batch b.schema) (write_batch b) (some b)
unfolding read_batch write_batch
Reads-batch b h =
    Reads-bind read_u8 _ (1 ∷ []) (write_u32 b.num_rows ++ write_each write_column b.columns) 1
      (some b) (Reads-u8 1) (λ rest. Reads-rows b h rest)
