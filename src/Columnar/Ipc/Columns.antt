-- ===== src/Columnar/Ipc/Columns.antt =====
-- The reader of ipc.rs gives back each part that the writer wrote: validities, values, columns,
-- fields.
use raster_h.Columnar.Utf8.{is_utf8, from_utf8_lossy, from_utf8_lossy-is_utf8}
use raster_h.Columnar.Schema.{ColumnField}
use raster_h.Columnar.Array.{
  ColumnArray, Validity, uint64s, int64s, uint8s, float64s, booleans, utf8s, binaries, len,
  data_type, validity,
}
use raster_h.Columnar.Batch.{Columns}
use raster_h.Columnar.Ipc.{
  write_u32, write_each, write_bytes, bool_byte, write_validity, write_values, write_column,
}
use raster_h.Columnar.Ipc.Reader.{
  ◌>>=◌, pure, read_exact, read_u8, read_u32, read_u64, read_many, read_bytes, nonzero,
  read_validity, read_values, read_columns,
}
use raster_h.Columnar.Ipc.Reads.{
  Reads, Reads-bind, Reads-map, Reads-exact, Reads-u8, Reads-u32, Reads-le64, Reads-bytes,
  Reads-many, map-nonzero-bool_byte,
}
use raster_h.Common.{
  ℕ, ◌^◌, ◌<◌, ◌≡◌, refl, ap, ◌∙◌, true, none, some, List, [], ◌∷◌, ◌++◌, map, append_assoc, length,
  length-map, All, ok,
}
use raster_h.Common.Bytes.{
  to_le_bytes, from_le_bytes, from_le_bytes-u64, i64_bits, i64_of_bits, i64_bits-lt,
  i64_of_bits-i64_bits,
}
use raster_h.Common.Int.{ℤ, IsI64}

-- What a `Vec<bool>` of validities, a string and a byte string can be: their lengths fit the
-- stream's u32, and a string is UTF-8.
abbrev pub IsValidity : Validity → Type 0
IsValidity none = Unit {0}
IsValidity (some v) = length v < 2 ^ 32

abbrev pub IsString : List ℕ → Type 0
IsString s = (is_utf8 s ≡ true) × (length s < 2 ^ 32)

abbrev pub IsBlob : List ℕ → Type 0
IsBlob b = length b < 2 ^ 32

-- The values are of the machine types that the array's constructor names.
abbrev pub IsStorable : ColumnArray → Type 0
IsStorable (uint64s values v) = All (λ x. x < 2 ^ 64) values × IsValidity v
IsStorable (int64s values v) = All IsI64 values × IsValidity v
IsStorable (uint8s values v) = IsValidity v
IsStorable (float64s values v) = All (λ x. x < 2 ^ 64) values × IsValidity v
IsStorable (booleans values v) = IsValidity v
IsStorable (utf8s values v) = All IsString values × IsValidity v
IsStorable (binaries values v) = All IsBlob values × IsValidity v

pub Reads-validity : (v : Validity) → IsValidity v → Reads read_validity (write_validity v) v
unfolding read_validity write_validity
Reads-validity none h = unfold read_u8 in λ rest. refl
Reads-validity (some v) h =
    Reads-bind read_u8 _ (1 ∷ []) (write_u32 (length v) ++ map bool_byte v) 1 (some v) (Reads-u8 1)
      (Reads-bind read_u32 _ (write_u32 (length v)) (map bool_byte v) (length v) (some v)
        (Reads-u32 (length v) h) (λ rest. bits rest))
  where
    bits :
        Reads
          (read_exact (length v) >>= λ b. pure (some (map nonzero b)))
          (map bool_byte v)
          (some v)
    bits rest =
        Reads-map (read_exact (length v)) (λ b. some (map nonzero b)) (map bool_byte v)
          (map bool_byte v) (Reads-exact (length v) (map bool_byte v) (length-map bool_byte v)) rest
        ∙ ap (λ t. ok (some t, rest)) (map-nonzero-bool_byte v)

-- Each reader of one value.
Reads-u64 : (w : ℕ) → w < 2 ^ 64 → Reads read_u64 (to_le_bytes 8 w) w
unfolding read_u64
Reads-u64 w h rest =
    Reads-le64 from_le_bytes w rest ∙ ap (λ t. ok (t, rest)) (from_le_bytes-u64 w h)

Reads-f64 :
    (w : ℕ) → w < 2 ^ 64 → Reads (read_exact 8 >>= λ b. pure (from_le_bytes b)) (to_le_bytes 8 w) w
Reads-f64 w h rest =
    Reads-le64 from_le_bytes w rest ∙ ap (λ t. ok (t, rest)) (from_le_bytes-u64 w h)

Reads-i64 :
    (z : ℤ)
    → IsI64 z
    → Reads
        (read_exact 8 >>= λ b. pure (i64_of_bits (from_le_bytes b)))
        (to_le_bytes 8 (i64_bits z))
        z
Reads-i64 z h rest =
    Reads-le64 (λ b. i64_of_bits (from_le_bytes b)) (i64_bits z) rest
    ∙ ap (λ t. ok (i64_of_bits t, rest)) (from_le_bytes-u64 (i64_bits z) (i64_bits-lt z))
    ∙ ap (λ t. ok (t, rest)) (i64_of_bits-i64_bits z h)

Reads-string :
    (s : List ℕ)
    → IsString s
    → Reads (read_bytes >>= λ b. pure (from_utf8_lossy b)) (write_bytes s) s
Reads-string s h rest =
    Reads-map read_bytes from_utf8_lossy (write_bytes s) s (Reads-bytes s h.1) rest
    ∙ ap (λ t. ok (t, rest)) (from_utf8_lossy-is_utf8 s h.0)

pub Reads-values :
    (c : ColumnArray)
    → IsStorable c
    → Reads (read_values (data_type c) (len c) (validity c)) (write_values c) c
unfolding read_values write_values data_type len validity
Reads-values (uint64s values v) h =
    Reads-map (read_many (length values) read_u64) (λ xs. uint64s xs v) _ values
      (Reads-many (λ x. x < 2 ^ 64) read_u64 (to_le_bytes 8) Reads-u64 values h.0)
Reads-values (int64s values v) h =
    Reads-map (read_many (length values) _) (λ xs. int64s xs v) _ values
      (Reads-many IsI64 _ (λ x. to_le_bytes 8 (i64_bits x)) Reads-i64 values h.0)
Reads-values (uint8s values v) h =
    Reads-map (read_exact (length values)) (λ xs. uint8s xs v) values values
      (Reads-exact (length values) values refl)
Reads-values (float64s values v) h =
    Reads-map (read_many (length values) _) (λ xs. float64s xs v) _ values
      (Reads-many (λ x. x < 2 ^ 64) _ (to_le_bytes 8) Reads-f64 values h.0)
Reads-values (booleans values v) h = λ rest.
    Reads-map (read_exact (length values)) (λ xs. booleans (map nonzero xs) v)
      (map bool_byte values) (map bool_byte values)
      (Reads-exact (length values) (map bool_byte values) (length-map bool_byte values)) rest
    ∙ ap (λ t. ok (booleans t v, rest)) (map-nonzero-bool_byte values)
Reads-values (utf8s values v) h =
    Reads-map (read_many (length values) _) (λ xs. utf8s xs v) _ values
      (Reads-many IsString _ write_bytes Reads-string values h.0)
Reads-values (binaries values v) h =
    Reads-map (read_many (length values) read_bytes) (λ xs. binaries xs v) _ values
      (Reads-many IsBlob read_bytes write_bytes Reads-bytes values h.0)

storable_validity : (c : ColumnArray) → IsStorable c → IsValidity (validity c)
unfolding validity
storable_validity (uint64s values v) h = h.1
storable_validity (int64s values v) h = h.1
storable_validity (uint8s values v) h = h
storable_validity (float64s values v) h = h.1
storable_validity (booleans values v) h = h
storable_validity (utf8s values v) h = h.1
storable_validity (binaries values v) h = h.1

pub Reads-read_columns :
    (n : ℕ) (fs : List ColumnField) (cs : List ColumnArray)
    → Columns n fs cs
    → All IsStorable cs
    → Reads (read_columns fs n) (write_each write_column cs) cs
unfolding read_columns write_each write_column
Reads-read_columns n [] [] m h = λ rest. refl
Reads-read_columns n [] (c ∷ cs) m h = absurd m
Reads-read_columns n (f ∷ fs) [] m h = absurd m
Reads-read_columns n (f ∷ fs) (c ∷ cs) (t, l, m) h = λ rest.
    rw (append_assoc (write_validity (validity c)) (write_values c) (write_each write_column cs)) (
      Reads-bind read_validity _ (write_validity (validity c))
        (write_values c ++ write_each write_column cs) (validity c) (c ∷ cs)
        (Reads-validity (validity c) (storable_validity c h.0))
        (Reads-bind (read_values f.data_type n (validity c)) _ (write_values c)
          (write_each write_column cs) c (c ∷ cs) (rw (← t, ← l) (Reads-values c h.0))
          (Reads-map (read_columns fs n) (λ xs. c ∷ xs) (write_each write_column cs) cs
            (Reads-read_columns n fs cs m h.1)))
        rest)
