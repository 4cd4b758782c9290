-- ===== src/Raster/Predictor/Chunks.antt =====
-- The copies of crates/raster-h3-core/src/raster/predictor.rs, at once or row by row, in the order
-- of the machine or the other, read the samples of a chunk.
use native.Mathlib.Nat.{mul_assoc, mul_comm, suc-mul}
use raster_h.Common.{
  ℕ, suc, ◌*◌, ◌%◌, ◌≤◌, ◌≡◌, refl, ap, ap₂, sym, ◌∙◌, subst, true, Option, some, List, [], ◌∷◌,
  ◌++◌, append_assoc, append-nil, length, length-append, take, drop, take_front, All, All-append,
  leb, ◌==◌, ==_iff, arith, if-elim, Bool-cases, inl, inr, ◌&&◌, ◌||◌,
}
use raster_h.Raster.Predictor.{
  TiffByteOrder, little_endian, big_endian, ChunkEncoding, samples, copy_rows, copy_all, is_little,
  unpack_samples,
}
use raster_h.Raster.Predictor.Differences.{Fits}
use raster_h.Raster.Predictor.Samples.{
  sample_bytes, row_bytes, length-row_bytes, samples-row_bytes, Rows, pack, flatten, AreRows,
  FitRows, copy_rows-pack,
}

row_bytes-append :
    (order : TiffByteOrder) (b : ℕ) (xs ys : List ℕ)
    → row_bytes order b (xs ++ ys) ≡ row_bytes order b xs ++ row_bytes order b ys
unfolding row_bytes
row_bytes-append order b [] ys = refl
row_bytes-append order b (x ∷ xs) ys =
    ap (λ t. sample_bytes order b x ++ t) (row_bytes-append order b xs ys)
    ∙ sym (append_assoc (sample_bytes order b x) (row_bytes order b xs) (row_bytes order b ys))

flatten-Fits : (b : ℕ) (rows : Rows) → FitRows b rows → All (Fits b) (flatten rows)
unfolding flatten
flatten-Fits b [] h = tt
flatten-Fits b ((row, pad) ∷ rows) h =
    All-append (Fits b) row (flatten rows) h.0 (flatten-Fits b rows h.1)

length-flatten :
    (b n stride : ℕ) (rows : Rows)
    → AreRows b n stride rows
    → length (flatten rows) ≡ length rows * n
unfolding AreRows flatten
length-flatten b n stride [] h = omega arith
length-flatten b n stride ((row, pad) ∷ []) h = omega (arith, length-append row [], h)
length-flatten b n stride ((row, pad) ∷ next ∷ rows) h = omega (
  arith,
  length-append row (flatten (next ∷ rows)),
  h.0,
  length-flatten b n stride (next ∷ rows) h.2,
  suc-mul (suc (length rows)) n,
)

empty : (pad : List ℕ) → length pad ≡ 0 → pad ≡ []
empty [] h = refl
empty (p ∷ pad) h = absurd (omega arith)

-- Without padding the rows stand one behind the other.
pack-flatten :
    (order : TiffByteOrder) (b n : ℕ) (rows : Rows)
    → AreRows b n (n * b) rows
    → (pad : List ℕ) × (pack order b rows ≡ row_bytes order b (flatten rows) ++ pad)
unfolding AreRows pack flatten
pack-flatten order b n [] h = ([], unfold row_bytes in refl)
pack-flatten order b n ((row, pad) ∷ []) h = (
  pad,
  append-nil (row_bytes order b row ++ pad)
      ∙ ap (λ t. row_bytes order b t ++ pad) (sym (append-nil row)),
)
pack-flatten order b n ((row, pad) ∷ next ∷ rows) h =
    let (last, e) = pack-flatten order b n (next ∷ rows) h.2 in
    let none_between = empty pad (omega (arith, h.1)) in
    let own = row_bytes order b row in
    let rest = row_bytes order b (flatten (next ∷ rows)) in
    (
      last,
      ap₂ (λ p t. (own ++ p) ++ t) none_between e
          ∙ ap (λ t. t ++ (rest ++ last)) (append-nil own)
          ∙ sym (append_assoc own rest last)
          ∙ ap (λ t. t ++ last) (sym (row_bytes-append order b row (flatten (next ∷ rows)))),
    )

copy_all-pack :
    (b n : ℕ) (rows : Rows) (dst : List ℕ)
    → AreRows b n (n * b) rows
    → FitRows b rows
    → length rows * n ≤ length dst
    → copy_all b (length rows * n) (pack little_endian b rows) dst
      ≡ some (flatten rows ++ drop (length rows * n) dst)
unfolding copy_all
copy_all-pack b n rows dst h f room =
    let (pad, e) = pack-flatten little_endian b n rows h in
    let own : List ℕ = row_bytes little_endian b (flatten rows) in
    let count = length-flatten b n (n * b) rows h in
    let size : length own ≡ length rows * n * b =
      length-row_bytes little_endian b (flatten rows) ∙ ap (λ k. k * b) count in
    let fits : (leb (length rows * n * b) (length (own ++ pad))
          && leb (length rows * n) (length dst))
        ≡ true =
      ground (arith, length-append own pad, size, room) in
    let read : samples little_endian b (length rows * n) (take (length rows * n * b) (own ++ pad))
        ≡ flatten rows =
      ap (samples little_endian b (length rows * n)) (take_front (length rows * n * b) own pad size)
      ∙ ap (λ k. samples little_endian b k own) (sym count)
      ∙ samples-row_bytes little_endian b (flatten rows) (flatten-Fits b rows f) in
    rw (e, fits, read) refl

-- One byte has one order.
row_bytes-one : (row : List ℕ) → row_bytes big_endian 1 row ≡ row_bytes little_endian 1 row
unfolding row_bytes sample_bytes
row_bytes-one [] = refl
row_bytes-one (x ∷ xs) = ap (λ t. (x % 256) ∷ t) (row_bytes-one xs)

pack-one : (rows : Rows) → pack big_endian 1 rows ≡ pack little_endian 1 rows
unfolding pack
pack-one [] = refl
pack-one ((row, pad) ∷ rows) = ap₂ (λ x y. (x ++ pad) ++ y) (row_bytes-one row) (pack-one rows)

pack-native :
    (order : TiffByteOrder) (b : ℕ) (rows : Rows)
    → ((b == 1) || is_little order) ≡ true
    → pack order b rows ≡ pack little_endian b rows
unfolding is_little
pack-native little_endian b rows h = refl
pack-native big_endian b rows h =
    subst (λ b. pack big_endian b rows ≡ pack little_endian b rows)
      (let e : 1 ≡ b = ground (arith, h) in e) (pack-one rows)

module _ (e : ChunkEncoding) (b : ℕ) (rows : Rows) (dst : List ℕ) (height : e.data_h ≡ length rows)
    (laid_out : AreRows b (e.data_w * e.spp) (e.tile_w * e.spp * b) rows) (fits : FitRows b rows)
    (room : length rows * (e.data_w * e.spp) ≤ length dst) where
  abbrev n : ℕ
  n = e.data_w * e.spp

  abbrev unpacked : Option (List ℕ)
  unpacked = some (flatten rows ++ drop (length rows * n) dst)

  by_rows :
      (order : TiffByteOrder)
      → copy_rows order b n (e.tile_w * e.spp * b) e.data_h (pack order b rows) dst ≡ unpacked
  by_rows order =
      ap (λ k. copy_rows order b n (e.tile_w * e.spp * b) k (pack order b rows) dst) height
      ∙ copy_rows-pack order b n (e.tile_w * e.spp * b) rows dst laid_out fits room

  all_at_once :
      (e.tile_w * e.spp * b == n * b) ≡ true
      → copy_all b (e.data_w * e.data_h * e.spp) (pack little_endian b rows) dst ≡ unpacked
  all_at_once same =
      ap (λ k. copy_all b k (pack little_endian b rows) dst) total
      ∙ copy_all-pack b n rows dst
          (subst (λ stride. AreRows b n stride rows)
            ((==_iff (e.tile_w * e.spp * b) (n * b)).0 same) laid_out)
          fits room
    where
      total : e.data_w * e.data_h * e.spp ≡ length rows * (e.data_w * e.spp)
      total =
          ap (λ k. e.data_w * k * e.spp) height
          ∙ ap (λ k. k * e.spp) (mul_comm e.data_w (length rows))
          ∙ mul_assoc (length rows) e.data_w e.spp

  native_samples : unpack_samples true e b (pack little_endian b rows) dst ≡ unpacked
  unfolding unpack_samples
  native_samples =
      if-elim (λ r. r ≡ unpacked) (e.tile_w * e.spp * b == n * b) _ _ all_at_once
        (λ _. by_rows little_endian)

  -- Whichever way the samples are copied, the rows that were packed are read.
  pub unpack_samples-pack :
      unpack_samples ((b == 1) || is_little e.byte_order) e b (pack e.byte_order b rows) dst
      ≡ unpacked
  unpack_samples-pack = elim (Bool-cases ((b == 1) || is_little e.byte_order)) [
    | inl native ↦
        ap₂ (λ t src. unpack_samples t e b src dst) native (pack-native e.byte_order b rows native)
        ∙ native_samples
    | inr foreign ↦
        ap (λ t. unpack_samples t e b (pack e.byte_order b rows) dst) foreign
        ∙ (unfold unpack_samples in by_rows e.byte_order)
  ]
