-- ===== src/Raster/Predictor/RoundTrip.antt =====
-- `unpack_integer_samples` of crates/raster-h3-core/src/raster/predictor.rs on a chunk that a TIFF
-- encoder wrote, and on any chunk.
use native.Mathlib.Nat.{mul_comm, mul-le-mul_right, one-mul}
use raster_h.Common.{
  ℕ, ◌*◌, ◌≤◌, ◌≡◌, refl, ap, sym, ◌∙◌, subst, some, List, ◌++◌, fun_ext, length, drop, ◌==◌, ◌||◌,
  ok,
}
use raster_h.Raster.Predictor.{
  ChunkEncoding, TiffSample, validate, is_little, unpack_samples, predicted, invert_white_is_zero,
  inverted, unpack_integer_samples,
}
use raster_h.Raster.Predictor.Chunks.{unpack_samples-pack}
use raster_h.Raster.Predictor.Integers.{
  map_rows, differenced, encode_with, encode_chunk, stored, inverted-stored, map_rows-AreRows,
  map_rows-FitRows, inverted-Fits, length-inverted, AreRows-HaveLength, map_rows-HaveLength,
  predicted-differenced, map_rows-map_rows, inverted-flatten, length-map_rows, length-differenced,
  differenced-Fits,
}
use raster_h.Raster.Predictor.Samples.{Rows, pack, flatten, AreRows, FitRows}
use raster_h.Raster.Predictor.Validate.{validate-IsValid}

pub unpack-parts :
    (t : TiffSample) (src dst : List ℕ) (e : ChunkEncoding) (unpacked summed : List ℕ)
    → validate e (length src) (length dst) t.bytes ≡ ok tt
    → unpack_samples ((t.bytes == 1) || is_little e.byte_order) e t.bytes src dst ≡ some unpacked
    → predicted e.predictor t e unpacked ≡ some summed
    → unpack_integer_samples t src dst e
      ≡ some (ok (inverted (invert_white_is_zero t) e.photometric summed))
unfolding unpack_integer_samples
unpack-parts t src dst e unpacked summed valid copied decoded =
    rw (unpack_integer_samples, valid, copied, decoded) refl

module _ (t : TiffSample) (e : ChunkEncoding) (rows : Rows) where
  abbrev width : ℕ
  width = e.data_w * e.spp

  abbrev invert : List ℕ → List ℕ
  invert = inverted (invert_white_is_zero t) e.photometric

  -- The same with the decoder's own way to store samples.
  unpack_integer_samples-encode_with :
      (dst : List ℕ)
      → e.data_h ≡ length rows
      → AreRows t.bytes width (e.tile_w * e.spp * t.bytes) rows
      → FitRows t.bytes rows
      → validate e (length (encode_with invert t e rows)) (length dst) t.bytes ≡ ok tt
      → unpack_integer_samples t (encode_with invert t e rows) dst e
        ≡ some (ok (flatten rows ++ invert (drop (length rows * width) dst)))
  unpack_integer_samples-encode_with dst height laid_out f valid =
      let v =
        validate-IsValid e (length (encode_with invert t e rows)) (length dst) t.bytes valid in
      let inner = map_rows invert rows in
      let inner_fit = map_rows-FitRows invert t.bytes rows (inverted-Fits t e.photometric) f in
      let outer = map_rows (differenced e.predictor t.bytes e.spp) inner in
      let composed = map_rows-map_rows (differenced e.predictor t.bytes e.spp) invert rows in
      let behind = drop (length rows * width) dst in
      let inner_count = length-map_rows invert rows in
      let count = length-map_rows (differenced e.predictor t.bytes e.spp) inner ∙ inner_count in
      let room : length rows * width ≤ length dst =
        subst (λ k. k ≤ length dst) (ap (λ h. width * h) height ∙ mul_comm width (length rows))
          v.target_is_long in
      let wide : e.spp ≤ width =
        subst (λ k. k ≤ width) (one-mul e.spp) (mul-le-mul_right e.spp v.some_columns) in
      let copied =
        unpack_samples-pack e t.bytes outer dst (height ∙ sym count)
          (map_rows-AreRows (differenced e.predictor t.bytes e.spp) t.bytes width
            (e.tile_w * e.spp * t.bytes) inner (length-differenced e.predictor t.bytes e.spp)
            (map_rows-AreRows invert t.bytes width (e.tile_w * e.spp * t.bytes) rows
              (length-inverted t e.photometric) laid_out))
          (map_rows-FitRows (differenced e.predictor t.bytes e.spp) t.bytes inner
            (differenced-Fits e.predictor t.bytes e.spp) inner_fit)
          (subst (λ k. k * width ≤ length dst) (sym count) room) in
      let decoded =
        predicted-differenced e.predictor t e inner behind (height ∙ sym inner_count) v.some_samples
          wide
          (map_rows-HaveLength invert width rows (length-inverted t e.photometric)
            (AreRows-HaveLength t.bytes width (e.tile_w * e.spp * t.bytes) rows laid_out))
          inner_fit in
      unpack-parts t (encode_with invert t e rows) dst e (flatten outer ++ behind)
        (flatten inner ++ behind) valid
        (ap
            (λ r.
              unpack_samples ((t.bytes == 1) || is_little e.byte_order) e t.bytes
                (pack e.byte_order t.bytes r) dst)
            composed
          ∙ copied
          ∙ ap (λ k. some (flatten outer ++ drop (k * width) dst)) count)
        decoded
      ∙ ap (λ x. some (ok x)) (inverted-flatten t e.photometric rows behind f)

  -- What an encoder wrote is decoded as the rows of the image, in front of what the target held
  -- behind them, which is mirrored too where white is zero and samples are unsigned. The samples are
  -- what their type holds; the rows have the valid width and the stride of the tile, and the layout
  -- is accepted.
  pub unpack_integer_samples-encode_chunk :
      (dst : List ℕ)
      → e.data_h ≡ length rows
      → AreRows t.bytes width (e.tile_w * e.spp * t.bytes) rows
      → FitRows t.bytes rows
      → validate e (length (encode_chunk t e rows)) (length dst) t.bytes ≡ ok tt
      → unpack_integer_samples t (encode_chunk t e rows) dst e
        ≡ some (ok (flatten rows ++ stored t e.photometric (drop (length rows * width) dst)))
  unfolding encode_chunk
  unpack_integer_samples-encode_chunk dst height laid_out f =
      subst
        (λ store.
          validate e (length (encode_with store t e rows)) (length dst) t.bytes ≡ ok tt
          → unpack_integer_samples t (encode_with store t e rows) dst e
            ≡ some (ok (flatten rows ++ store (drop (length rows * width) dst))))
        (fun_ext (inverted-stored t e.photometric))
        (unpack_integer_samples-encode_with dst height laid_out f)
