-- ===== src/Raster/Predictor.antt =====
-- Decoding of TIFF chunks: crates/raster-h3-core/src/raster/predictor.rs on a little-endian machine
-- without NEON. A sample of `b` bytes is its bits, a number below 256 ^ b, of a float too. An
-- `Option` of a result is `none` where the code panics: at a slice or an index out of bounds.
pub mod Differences
pub mod Samples
pub mod Chunks
pub mod Validate
pub mod Integers
pub mod RoundTrip
pub mod Total
pub mod Floats
pub mod Planes
pub mod FloatRows
mod Tests
use raster_h.Common.{
  ℕ, zero, suc, ◌+◌, ◌-◌, ◌*◌, ◌/◌, ◌%◌, ◌^◌, Bool, true, false, ◌||◌, ◌&&◌, Option, none, some,
  List, [], ◌∷◌, ◌++◌, map, length, get_elem?, get_or, set, take, drop, ltb, leb, ◌==◌,
  if◌then◌else◌, Result, ok, err, ◌>>=◌, RasterH3Error, invalid_metadata,
}
use raster_h.Common.Bytes.{from_le_bytes}
use raster_h.Common.Text.{reverse}

unfoldable pub wrapping_add : ℕ → ℕ → ℕ → ℕ
wrapping_add b x y = (x + y) % 256 ^ b

-- The loop over the columns from `col` on, of which as many are left as there is fuel.
unfoldable pub predict_from : ℕ → ℕ → ℕ → ℕ → List ℕ → List ℕ
unfolding wrapping_add
predict_from b spp zero col row = row
predict_from b spp (suc left) col row =
    predict_from b spp left (col + 1)
      (set row col (wrapping_add b (get_or row col 0) (get_or row (col - spp) 0)))

unfoldable pub predict_row : ℕ → ℕ → List ℕ → List ℕ
unfolding predict_from
predict_row b spp row = predict_from b spp (length row - spp) spp row

-- The rows in turn, each from the front of what the rows before it leave.
unfoldable pub predict_rows : ℕ → ℕ → ℕ → ℕ → List ℕ → Option (List ℕ)
unfolding predict_row
predict_rows b spp stride zero data' = some data'
predict_rows b spp stride (suc rows) data' = elim (leb stride (length data')) [
  | false ↦ none
  | true ↦ elim (predict_rows b spp stride rows (drop stride data')) [
    | none ↦ none
    | some rest ↦ some (predict_row b spp (take stride data') ++ rest)
  ]
]

unfoldable pub apply_horizontal_predictor : ℕ → List ℕ → ℕ → ℕ → ℕ → Option (List ℕ)
unfolding predict_rows
apply_horizontal_predictor b data' data_w data_h spp =
    predict_rows b spp (data_w * spp) data_h data'

pub data TiffByteOrder : Type 0 where
  little_endian big_endian : TiffByteOrder

-- The tags of the tiff crate, as far as the code tells them apart.
pub data Predictor : Type 0 where
  no_predictor horizontal floating_point : Predictor
  unknown_predictor : ℕ → Predictor

pub data PhotometricInterpretation : Type 0 where
  white_is_zero : PhotometricInterpretation
  other_interpretation : ℕ → PhotometricInterpretation

pub record ChunkEncoding : Type 0 where
  pub tile_w : ℕ
  pub data_w : ℕ
  pub data_h : ℕ
  pub spp : ℕ
  pub byte_order : TiffByteOrder
  pub predictor : Predictor
  pub photometric : PhotometricInterpretation

-- `usize` has 64 bits.
unfoldable pub checked_mul : ℕ → ℕ → Result ℕ
checked_mul a b = if ltb (a * b) (2 ^ 64) then ok (a * b) else err invalid_metadata

unfoldable pub checked_add : ℕ → ℕ → Result ℕ
checked_add a b = if ltb (a + b) (2 ^ 64) then ok (a + b) else err invalid_metadata

unfoldable pub last_row : Predictor → ℕ → ℕ → ℕ
last_row no_predictor src_stride dst_bytes = dst_bytes
last_row horizontal src_stride dst_bytes = dst_bytes
last_row floating_point src_stride dst_bytes = src_stride
last_row (unknown_predictor n) src_stride dst_bytes = dst_bytes

unfoldable pub validate : ChunkEncoding → ℕ → ℕ → ℕ → Result (Unit {0})
unfolding checked_mul checked_add last_row
validate e src_len dst_len sample_bytes =
    if (e.spp == 0) || (e.data_w == 0) || (e.data_h == 0) || ltb e.tile_w e.data_w
    then err invalid_metadata
    else do
      per_row ← checked_mul e.tile_w e.spp
      src_stride ← checked_mul per_row sample_bytes
      dst_stride ← checked_mul e.data_w e.spp
      dst_bytes ← checked_mul dst_stride sample_bytes
      samples ← checked_mul dst_stride e.data_h
      rows ← checked_mul src_stride (e.data_h - 1)
      required ← checked_add rows (last_row e.predictor src_stride dst_bytes)
      if ltb src_len required || ltb dst_len samples then err invalid_metadata else ok tt

-- `n` samples of `b` bytes; a copy of native bytes is `little_endian`.
unfoldable pub sample : TiffByteOrder → List ℕ → ℕ
sample little_endian bytes = from_le_bytes bytes
sample big_endian bytes = from_le_bytes (reverse bytes)

unfoldable pub samples : TiffByteOrder → ℕ → ℕ → List ℕ → List ℕ
unfolding sample
samples order b zero s = []
samples order b (suc n) s = sample order (take b s) ∷ samples order b n (drop b s)

-- The row loop: a row of the source, `n` samples, goes to the front of what is left of `dst`.
unfoldable pub copy_rows : TiffByteOrder → ℕ → ℕ → ℕ → ℕ → List ℕ → List ℕ → Option (List ℕ)
unfolding samples
copy_rows order b n src_stride zero src dst = some dst
copy_rows order b n src_stride (suc rows) src dst =
    elim (leb (n * b) (length src) && leb n (length dst)) [
      | false ↦ none
      | true ↦ elim (copy_rows order b n src_stride rows (drop src_stride src) (drop n dst)) [
        | none ↦ none
        | some rest ↦ some (samples order b n (take (n * b) src) ++ rest)
      ]
    ]

-- One copy of all samples.
unfoldable pub copy_all : ℕ → ℕ → List ℕ → List ℕ → Option (List ℕ)
unfolding samples
copy_all b total src dst =
    if leb (total * b) (length src) && leb total (length dst)
    then some (samples little_endian b total (take (total * b) src) ++ drop total dst)
    else none

unfoldable pub is_little : TiffByteOrder → Bool
is_little little_endian = true
is_little big_endian = false

unfoldable pub unpack_samples : Bool → ChunkEncoding → ℕ → List ℕ → List ℕ → Option (List ℕ)
unfolding copy_rows copy_all
unpack_samples is_native e b src dst =
    let src_stride_bytes = e.tile_w * e.spp * b in
    let dst_stride = e.data_w * e.spp in
    if is_native
    then if src_stride_bytes == dst_stride * b
      then copy_all b (e.data_w * e.data_h * e.spp) src dst
      else copy_rows little_endian b dst_stride src_stride_bytes e.data_h src dst
    else copy_rows e.byte_order b dst_stride src_stride_bytes e.data_h src dst

-- The samples of an integer type: its bytes, and whether it is signed.
pub record TiffSample : Type 0 where
  pub bytes : ℕ
  pub signed : Bool

unfoldable pub invert_white_is_zero : TiffSample → ℕ → ℕ
invert_white_is_zero t x = if t.signed then x else 256 ^ t.bytes - 1 - x

abbrev pub predicted : Predictor → TiffSample → ChunkEncoding → List ℕ → Option (List ℕ)
predicted no_predictor t e dst = some dst
predicted horizontal t e dst = apply_horizontal_predictor t.bytes dst e.data_w e.data_h e.spp
predicted floating_point t e dst = some dst
predicted (unknown_predictor n) t e dst = some dst

unfoldable pub inverted : (ℕ → ℕ) → PhotometricInterpretation → List ℕ → List ℕ
inverted invert white_is_zero dst = map invert dst
inverted invert (other_interpretation n) dst = dst

unfoldable pub unpack_integer_samples :
    TiffSample → List ℕ → List ℕ → ChunkEncoding → Option (Result (List ℕ))
unfolding validate unpack_samples invert_white_is_zero inverted is_little
unpack_integer_samples t src dst e = elim (validate e (length src) (length dst) t.bytes) [
  | err x ↦ some (err x)
  | ok _ ↦ elim (unpack_samples ((t.bytes == 1) || is_little e.byte_order) e t.bytes src dst) [
    | none ↦ none
    | some unpacked ↦ elim (predicted e.predictor t e unpacked) [
      | none ↦ none
      | some summed ↦ some (ok (inverted (invert_white_is_zero t) e.photometric summed))
    ]
  ]
]
