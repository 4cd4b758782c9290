-- ===== src/Columnar/Ipc/Stream.antt =====
-- The whole stream of ipc.rs: what the writer leaves behind, and what the reader makes of it.
use raster_h.Columnar.Schema.{ColumnSchema}
use raster_h.Columnar.Batch.{RecordBatch}
use raster_h.Columnar.Ipc.{write_batch, write_batches, write_header, write_ipc_stream}
use raster_h.Columnar.Ipc.Reader.{
  read_u8, read_batch, read_header, IpcStreamReader, new, next, collect, read_ipc_stream,
}
use raster_h.Columnar.Ipc.RoundTrip.{IsSchema, IsStorableBatch, Reads-header, Reads-batch}
use raster_h.Common.{
  ℕ, zero, suc, ◌+◌, ◌≤◌, ◌<◌, ◌≡◌, refl, sym, ap, ap₂, subst, append-nil, ◌∙◌, true, false, none,
  some, List, [], ◌∷◌, ◌++◌, map, append_assoc, length, length-append, All, ◌==◌, Bool-cases, inl,
  inr, Result, ok, err, RasterH3Error, arith,
}

-- The batches that are written: those with a row.
abbrev pub nonempty : List RecordBatch → List RecordBatch
nonempty [] = []
nonempty (b ∷ bs) = elim (b.num_rows == 0) [ true ↦ nonempty bs | false ↦ b ∷ nonempty bs ]

abbrev pub row_count : List RecordBatch → ℕ
row_count [] = 0
row_count (b ∷ bs) = b.num_rows + row_count bs

-- The bytes of a list of batches.
abbrev pub written : List RecordBatch → List ℕ
written [] = []
written (b ∷ bs) = write_batch b ++ written bs

-- The writer's loop in closed form: batches that all succeed, and what a later failure leaves.
write_batches-ok :
    (w : List ℕ) (n : ℕ) (bs : List RecordBatch)
    → write_batches w n (map ok bs)
      ≡ (w ++ (written (nonempty bs) ++ (0 ∷ [])), ok (n + row_count bs))
unfolding write_batches
write_batches-ok w n [] = ap (λ t. (w ++ (0 ∷ []), ok t)) (omega arith)
write_batches-ok w n (b ∷ bs) = elim (Bool-cases (b.num_rows == 0)) [
  | inl e ↦
      rw (e, nonempty, write_batches)
        (write_batches-ok w n bs
          ∙ ap (λ t. (w ++ (written (nonempty bs) ++ (0 ∷ [])), ok t)) (ground arith))
  | inr e ↦
      rw (e, nonempty, write_batches)
        (write_batches-ok (w ++ write_batch b) (n + b.num_rows) bs
          ∙ ap₂ (λ t k. (t, ok k))
              (append_assoc w (write_batch b) (written (nonempty bs) ++ (0 ∷ []))
                ∙ ap (λ t. w ++ t)
                    (sym (append_assoc (write_batch b) (written (nonempty bs)) (0 ∷ []))))
              (omega arith))
]

write_batches-err :
    (w : List ℕ) (n : ℕ) (bs : List RecordBatch) (e : RasterH3Error)
    (later : List (Result RecordBatch))
    → write_batches w n (map ok bs ++ (err e ∷ later)) ≡ (w ++ written (nonempty bs), err e)
unfolding write_batches
write_batches-err w n [] e later = ap (λ t. (t, err e)) (sym (append-nil w))
write_batches-err w n (b ∷ bs) e later = elim (Bool-cases (b.num_rows == 0)) [
  | inl z ↦ rw (z, nonempty, write_batches) (write_batches-err w n bs e later)
  | inr z ↦
      rw (z, nonempty, write_batches)
        (write_batches-err (w ++ write_batch b) (n + b.num_rows) bs e later
          ∙ ap (λ t. (t, err e)) (append_assoc w (write_batch b) (written (nonempty bs))))
]

-- A batch that fails ends the stream there: the header and the batches before it stay written,
-- there is no end marker, and the failure is the writer's answer.
pub write_ipc_stream-err :
    (writer : List ℕ) (schema : ColumnSchema) (bs : List RecordBatch) (e : RasterH3Error)
    (later : List (Result RecordBatch))
    → write_ipc_stream writer schema (map ok bs ++ (err e ∷ later))
      ≡ (writer ++ (write_header schema ++ written (nonempty bs)), err e)
unfolding write_ipc_stream
write_ipc_stream-err writer schema bs e later =
    write_batches-err (writer ++ write_header schema) 0 bs e later
    ∙ ap (λ t. (t, err e)) (append_assoc writer (write_header schema) (written (nonempty bs)))

pub record IsBatchOf (schema : ColumnSchema) (b : RecordBatch) : Type 0 where
  pub same_schema : b.schema ≡ schema
  pub storable : IsStorableBatch b

abbrev stream_of : ColumnSchema → List ℕ → IpcStreamReader
stream_of schema bytes = record { reader = bytes; schema = schema; done = false }

next-batch :
    (schema : ColumnSchema) (b : RecordBatch) (rest : List ℕ)
    → IsBatchOf schema b
    → next (stream_of schema (write_batch b ++ rest)) ≡ (some (ok b), stream_of schema rest)
unfolding next
next-batch schema b rest h = rw (reads) refl
  where
    reads : read_batch schema (write_batch b ++ rest) ≡ ok (some b, rest)
    reads =
        subst (λ s. read_batch s (write_batch b ++ rest) ≡ ok (some b, rest)) h.same_schema
          (Reads-batch b h.storable rest)

next-end :
    (schema : ColumnSchema) (rest : List ℕ)
    → next (stream_of schema (0 ∷ rest))
      ≡ (none, record { reader = rest; schema = schema; done = true })
unfolding next read_batch read_u8
next-end schema rest = refl

collect-written :
    (fuel : ℕ) (schema : ColumnSchema) (bs : List RecordBatch) (rest : List ℕ)
    → All (IsBatchOf schema) bs
    → length bs < fuel
    → collect fuel (stream_of schema (written bs ++ (0 ∷ rest))) ≡ some (ok (bs, rest))
unfolding collect
collect-written zero schema bs rest h f = absurd (omega arith)
collect-written (suc fuel) schema [] rest h f = rw (next-end schema rest) refl
collect-written (suc fuel) schema (b ∷ bs) rest h f =
    rw
      (
        append_assoc (write_batch b) (written bs) (0 ∷ rest),
        next-batch schema b (written bs ++ (0 ∷ rest)) h.0,
        collect-written fuel schema bs rest h.1 (omega arith),
      )
      refl

All-nonempty : (P : RecordBatch → Type 0) (bs : List RecordBatch) → All P bs → All P (nonempty bs)
All-nonempty P [] h = tt
All-nonempty P (b ∷ bs) h = elim (Bool-cases (b.num_rows == 0)) [
  | inl e ↦ rw (e, nonempty) (All-nonempty P bs h.1)
  | inr e ↦ rw (e, nonempty) (h.0, All-nonempty P bs h.1)
]

length-written : (bs : List RecordBatch) → length bs ≤ length (written bs)
length-written [] = omega arith
length-written (b ∷ bs) =
    omega (arith, length-append (write_batch b) (written bs), length-written bs, starts b)
  where
    starts : (c : RecordBatch) → 1 ≤ length (write_batch c)
    starts c = unfold write_batch in omega arith

read_ipc_stream-opened :
    (bytes body rest : List ℕ) (schema : ColumnSchema) (bs : List RecordBatch)
    → read_header bytes ≡ ok (schema, body)
    → collect (suc (length body)) (stream_of schema body) ≡ some (ok (bs, rest))
    → read_ipc_stream bytes ≡ some (ok (schema, bs, rest))
unfolding read_ipc_stream new
read_ipc_stream-opened bytes body rest schema bs h k = rw (h, new, read_ipc_stream) (rw k refl)

read_header-stream :
    (schema : ColumnSchema) (body rest : List ℕ)
    → IsSchema schema
    → read_header ((write_header schema ++ (body ++ (0 ∷ []))) ++ rest)
      ≡ ok (schema, body ++ (0 ∷ rest))
read_header-stream schema body rest h =
    ap read_header (
      append_assoc (write_header schema) (body ++ (0 ∷ [])) rest
      ∙ ap (λ t. write_header schema ++ t) (append_assoc body (0 ∷ []) rest))
    ∙ Reads-header schema h (body ++ (0 ∷ rest))

-- For a schema with UTF-8 names and batches that `try_new` built of it, with values of their types
-- and lengths that fit a u32: reading back what was written gives the schema, every batch that has
-- a row, in order, and the bytes behind the stream; the writer's answer is the number of rows.
pub read_ipc_stream-write_ipc_stream :
    (schema : ColumnSchema) (bs : List RecordBatch) (rest : List ℕ)
    → IsSchema schema
    → All (IsBatchOf schema) bs
    → (read_ipc_stream ((write_ipc_stream [] schema (map ok bs)).0 ++ rest)
        ≡ some (ok (schema, nonempty bs, rest)))
      × ((write_ipc_stream [] schema (map ok bs)).1 ≡ ok (row_count bs))
unfolding write_ipc_stream
read_ipc_stream-write_ipc_stream schema bs rest hs hb =
    let body : List ℕ = written (nonempty bs) ++ (0 ∷ rest) in
    rw (write_batches-ok (write_header schema) 0 bs) (
      read_ipc_stream-opened _ body rest schema (nonempty bs)
          (read_header-stream schema (written (nonempty bs)) rest hs)
          (collect-written (suc (length body)) schema (nonempty bs) rest
            (All-nonempty (IsBatchOf schema) bs hb)
            (omega (
              arith,
              length-written (nonempty bs),
              length-append (written (nonempty bs)) (0 ∷ rest),
            ))),
      ap ok (omega arith),
    )
