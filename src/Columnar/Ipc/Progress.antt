-- ===== src/Columnar/Ipc/Progress.antt =====
-- The reader of ipc.rs on any bytes, well formed or not: how many of them its parts take.
use raster_h.Columnar.Schema.{
  ArrowDataType, uint64, int64, uint8, float64, boolean, utf8, binary, ColumnField, ColumnSchema,
}
use raster_h.Columnar.Array.{Validity}
use raster_h.Columnar.Batch.{RecordBatch, try_new}
use raster_h.Columnar.Ipc.Reader.{
  Reader, ◌>>=◌, pure, raise, read_exact, read_u8, read_u32, read_u64, read_many, read_bytes,
  read_validity, read_values, read_columns, read_rows, read_batch, lift_batch, IpcStreamReader, new,
  next, after_batch, Collected, collect, collect_item, collect_cons, read_ipc_stream,
}
use raster_h.Common.{
  ℕ, zero, suc, ◌≤◌, ◌<◌, ◌≡◌, ◌≢◌, refl, Bool, true, false, Option, none, some, List, [], ◌∷◌,
  length, ◌==◌, if◌then◌else◌, Result, ok, err, RasterH3Error, arith, length-drop,
}

-- A read leaves at most what it was given.
abbrev Shrinks {ℓ} : {A : Type ℓ} → Reader A → Type ℓ
Shrinks {A} r =
    (bs : List ℕ) (a : A) (rest : List ℕ) → r bs ≡ ok (a, rest) → length rest ≤ length bs

>>=-inv {ℓ κ} :
    {A : Type ℓ} {B : Type κ} (m : Result (A × List ℕ)) (f : A → Reader B) (b : B) (rest : List ℕ)
    → elim m [ err e ↦ err e | ok (a, r) ↦ f a r ] ≡ ok (b, rest)
    → (a : A) × (r : List ℕ) × (m ≡ ok (a, r)) × (f a r ≡ ok (b, rest))
>>=-inv (err e) f b rest h = cc
>>=-inv (ok (a, r)) f b rest h = (a, r, refl, h)

Shrinks-bind {ℓ κ} :
    {A : Type ℓ} {B : Type κ} (m : Reader A) (f : A → Reader B)
    → Shrinks m
    → ((a : A) → Shrinks (f a))
    → Shrinks (m >>= f)
Shrinks-bind m f h k bs b rest e =
    let (a, r, p, q) = >>=-inv (m bs) f b rest e in omega (arith, h bs a r p, k a r b rest q)

Shrinks-pure {ℓ} : {A : Type ℓ} (a : A) → Shrinks (pure a)
Shrinks-pure a bs b rest e = ground arith

Shrinks-raise {ℓ} : {A : Type ℓ} (e : RasterH3Error) → Shrinks {A = A} (raise e)
Shrinks-raise e bs b rest h = cc

Shrinks-if {ℓ} :
    {A : Type ℓ} (t : Bool) (r s : Reader A) → Shrinks r → Shrinks s → Shrinks (if t then r else s)
Shrinks-if true r s h k = h
Shrinks-if false r s h k = k

Shrinks-exact : (n : ℕ) → Shrinks (read_exact n)
unfolding read_exact
Shrinks-exact n bs a rest e = ground (arith, length-drop n bs)

Shrinks-u8 : Shrinks read_u8
unfolding read_u8
Shrinks-u8 [] a rest e = cc
Shrinks-u8 (b ∷ bs) a rest e = ground arith

Shrinks-map {ℓ κ} :
    {A : Type ℓ} {B : Type κ} (m : Reader A) (g : A → B)
    → Shrinks m
    → Shrinks (m >>= λ a. pure (g a))
Shrinks-map m g h = Shrinks-bind m (λ a. pure (g a)) h (λ a. Shrinks-pure (g a))

Shrinks-u32 : Shrinks read_u32
unfolding read_u32
Shrinks-u32 = Shrinks-map (read_exact 4) _ (Shrinks-exact 4)

Shrinks-u64 : Shrinks read_u64
unfolding read_u64
Shrinks-u64 = Shrinks-map (read_exact 8) _ (Shrinks-exact 8)

Shrinks-bytes : Shrinks read_bytes
unfolding read_bytes
Shrinks-bytes = Shrinks-bind read_u32 read_exact Shrinks-u32 Shrinks-exact

Shrinks-many {ℓ} : {A : Type ℓ} (n : ℕ) (r : Reader A) → Shrinks r → Shrinks (read_many n r)
unfolding read_many
Shrinks-many zero r h = Shrinks-pure []
Shrinks-many (suc n) r h =
    Shrinks-bind r _ h λ v. Shrinks-map (read_many n r) (λ vs. v ∷ vs) (Shrinks-many n r h)

Shrinks-validity : Shrinks read_validity
unfolding read_validity
Shrinks-validity = Shrinks-bind read_u8 _ Shrinks-u8 λ has.
    Shrinks-if (has == 0) _ _ (Shrinks-pure none)
      (Shrinks-bind read_u32 _ Shrinks-u32 λ n. Shrinks-map (read_exact n) _ (Shrinks-exact n))

Shrinks-values : (dt : ArrowDataType) (n : ℕ) (v : Validity) → Shrinks (read_values dt n v)
unfolding read_values
Shrinks-values uint64 n v =
    Shrinks-map (read_many n read_u64) _ (Shrinks-many n read_u64 Shrinks-u64)
Shrinks-values int64 n v =
    Shrinks-map _ _ (Shrinks-many n _ (Shrinks-map (read_exact 8) _ (Shrinks-exact 8)))
Shrinks-values uint8 n v = Shrinks-map (read_exact n) _ (Shrinks-exact n)
Shrinks-values float64 n v =
    Shrinks-map _ _ (Shrinks-many n _ (Shrinks-map (read_exact 8) _ (Shrinks-exact 8)))
Shrinks-values boolean n v = Shrinks-map (read_exact n) _ (Shrinks-exact n)
Shrinks-values utf8 n v =
    Shrinks-map _ _ (Shrinks-many n _ (Shrinks-map read_bytes _ Shrinks-bytes))
Shrinks-values binary n v = Shrinks-map _ _ (Shrinks-many n read_bytes Shrinks-bytes)

Shrinks-columns : (fs : List ColumnField) (n : ℕ) → Shrinks (read_columns fs n)
unfolding read_columns
Shrinks-columns [] n = Shrinks-pure []
Shrinks-columns (f ∷ fs) n = Shrinks-bind read_validity _ Shrinks-validity λ v.
    Shrinks-bind (read_values f.data_type n v) _ (Shrinks-values f.data_type n v)
      λ c. Shrinks-map (read_columns fs n) (λ cs. c ∷ cs) (Shrinks-columns fs n)

Shrinks-lift : (r : Result RecordBatch) → Shrinks (lift_batch r)
unfolding lift_batch
Shrinks-lift (ok b) = Shrinks-pure (some b)
Shrinks-lift (err e) = Shrinks-raise e

Shrinks-rows : (schema : ColumnSchema) → Shrinks (read_rows schema)
unfolding read_rows
Shrinks-rows schema = Shrinks-bind read_u32 _ Shrinks-u32 λ n.
    Shrinks-bind (read_columns schema.fields n) _ (Shrinks-columns schema.fields n)
      λ cs. Shrinks-lift (try_new schema cs)

-- A batch takes a byte at least: its marker.
read_batch-lt :
    (schema : ColumnSchema) (bs : List ℕ) (o : Option RecordBatch) (rest : List ℕ)
    → read_batch schema bs ≡ ok (o, rest)
    → length rest < length bs
unfolding read_batch read_u8
read_batch-lt schema [] o rest e = cc
read_batch-lt schema (b ∷ bs) o rest e = omega (
  arith,
  Shrinks-if (b == 0) (pure none) _ (Shrinks-pure none)
      (Shrinks-if (b == 1) (read_rows schema) _ (Shrinks-rows schema) (Shrinks-raise _)) bs o rest
      e,
)

abbrev reader_at : ColumnSchema → List ℕ → Bool → IpcStreamReader
reader_at schema bytes done = record { reader = bytes; schema = schema; done = done }

collect_cons-ne-none : (b : RecordBatch) (c : Collected) → c ≢ none → collect_cons b c ≢ none
unfolding collect_cons
collect_cons-ne-none b none h e = h refl
collect_cons-ne-none b (some (err x)) h e = cc
collect_cons-ne-none b (some (ok (bs, rest))) h e = cc

collect_item-ne-none :
    (schema : ColumnSchema) (bytes : List ℕ) (more : IpcStreamReader → Collected)
    (r : Result (Option RecordBatch × List ℕ))
    → read_batch schema bytes ≡ r
    → ((rest : List ℕ) → length rest < length bytes → more (reader_at schema rest false) ≢ none)
    → collect_item (after_batch (reader_at schema bytes false) r) more ≢ none
unfolding collect_item after_batch
collect_item-ne-none schema bytes more (err e) p h = λ q. cc
collect_item-ne-none schema bytes more (ok (none, rest)) p h = λ q. cc
collect_item-ne-none schema bytes more (ok (some b, rest)) p h =
    collect_cons-ne-none b (more (reader_at schema rest false))
      (h rest (read_batch-lt schema bytes (some b) rest p))

collect-ne-none :
    (fuel : ℕ) (schema : ColumnSchema) (bytes : List ℕ) (done : Bool)
    → length bytes < fuel
    → collect fuel (reader_at schema bytes done) ≢ none
unfolding collect next
collect-ne-none zero schema bytes done h = absurd (omega arith)
collect-ne-none (suc fuel) schema bytes true h = λ q. cc
collect-ne-none (suc fuel) schema bytes false h =
    collect_item-ne-none schema bytes (λ s. collect fuel s) (read_batch schema bytes) refl
      λ rest k. collect-ne-none fuel schema rest false (omega arith)

abbrev Whole : Type 0
Whole = Option (Result (ColumnSchema × List RecordBatch × List ℕ))

-- Reading a stream ends on every input: the loop over the batches never runs out of fuel.
pub read_ipc_stream-ne-none : (bytes : List ℕ) → read_ipc_stream bytes ≢ none
unfolding read_ipc_stream
read_ipc_stream-ne-none bytes = opened (new bytes)
  where
    collected :
        (schema : ColumnSchema) (c : Collected)
        → c ≢ none
        → ◌≢◌ {A = Whole}
            (elim c [
              | none ↦ none
              | some (err e) ↦ some (err e)
              | some (ok (batches, rest)) ↦ some (ok (schema, batches, rest))
            ])
            none
    collected schema none h = absurd (h refl)
    collected schema (some (err e)) h = λ q. cc
    collected schema (some (ok (batches, rest))) h = λ q. cc

    opened :
        (r : Result IpcStreamReader)
        → ◌≢◌ {A = Whole}
            (elim r [
              | err e ↦ some (err e)
              | ok stream ↦ elim (collect (suc (length stream.reader)) stream) [
                | none ↦ none
                | some (err e) ↦ some (err e)
                | some (ok (batches, rest)) ↦ some (ok (stream.schema, batches, rest))
              ]
            ])
            none
    opened (err e) = λ q. cc
    opened (ok stream) = collected stream.schema (collect (suc (length stream.reader)) stream) (
        collect-ne-none (suc (length stream.reader)) stream.schema stream.reader stream.done
          (omega arith))

-- A stream that has answered anything but a batch, its end or an error, is done: it answers its
-- end from then on, and its state stays as it is.
pub next-fused :
    (s : IpcStreamReader)
    → ((b : RecordBatch) → (next s).0 ≢ some (ok b))
    → next (next s).1 ≡ (none, (next s).1)
unfolding next
next-fused s h = go s.done refl h
  where
    item :
        (r : Result (Option RecordBatch × List ℕ))
        → ((b : RecordBatch) → (after_batch s r).0 ≢ some (ok b))
        → next (after_batch s r).1 ≡ (none, (after_batch s r).1)
    item (err e) k = refl
    item (ok (none, rest)) k = refl
    item (ok (some b, rest)) k = absurd (k b refl)

    after : Option (Result RecordBatch) × IpcStreamReader
    after = after_batch s (read_batch s.schema s.reader)

    go :
        (t : Bool)
        → s.done ≡ t
        → ((b : RecordBatch) → (if t then (none, s) else after).0 ≢ some (ok b))
        → next (if t then (none, s) else after).1 ≡ (none, (if t then (none, s) else after).1)
    go true e k = simp e
    go false e k = item (read_batch s.schema s.reader) k
