-- ===== src/Raster/Predictor/Floats.antt =====
-- The floating-point predictor and `unpack_f32`, `unpack_f64` of
-- crates/raster-h3-core/src/raster/predictor.rs. A float is its bits; `one_minus` stands for the
-- subtraction `1.0 - x`.
use raster_h.Common.{
  ℕ, zero, suc, ◌+◌, ◌*◌, ◌/◌, true, false, ◌&&◌, Option, none, some, List, [], ◌∷◌, ◌++◌, length,
  get_elem?, take, drop, leb, Result, ok, err, invalid_metadata,
}
use raster_h.Raster.Predictor.{
  big_endian, sample, predict_row, Predictor, no_predictor, horizontal, floating_point,
  unknown_predictor, ChunkEncoding, validate, is_little, unpack_samples, inverted,
}

-- The bytes `j`, `j + 1`, … of the float at `i`, one from each plane.
unfoldable pub gather : List ℕ → ℕ → ℕ → ℕ → ℕ → Option (List ℕ)
gather input plane i zero j = some []
gather input plane i (suc left) j = elim (get_elem? input (plane * j + i)) [
  | none ↦ none
  | some byte ↦ elim (gather input plane i left (j + 1)) [
    | none ↦ none
    | some bytes ↦ some (byte ∷ bytes)
  ]
]

-- The loop over the output, of which `left` places are left from `i` on.
unfoldable pub reassemble : ℕ → List ℕ → ℕ → ℕ → ℕ → Option (List ℕ)
unfolding gather
reassemble b input plane zero i = some []
reassemble b input plane (suc left) i = elim (gather input plane i b 0) [
  | none ↦ none
  | some bytes ↦ elim (reassemble b input plane left (i + 1)) [
    | none ↦ none
    | some rest ↦ some (sample big_endian bytes ∷ rest)
  ]
]

-- `fp_predict_f32` and `fp_predict_f64`: the bytes of the row, the length of the output.
unfoldable pub fp_predict : ℕ → List ℕ → ℕ → ℕ → Option (List ℕ)
unfolding reassemble
fp_predict b input out_len spp =
    let summed = predict_row 1 spp input in reassemble b summed (length summed / b) out_len 0

module _ (one_minus : ℕ → ℕ) where
  unfoldable pub fp_rows : ℕ → ℕ → ℕ → ChunkEncoding → ℕ → List ℕ → List ℕ → Option (List ℕ)
  unfolding fp_predict
  fp_rows b n src_stride e zero src dst = some dst
  fp_rows b n src_stride e (suc rows) src dst =
      elim (leb src_stride (length src) && leb n (length dst)) [
        | false ↦ none
        | true ↦ elim (fp_predict b (take src_stride src) n e.spp) [
          | none ↦ none
          | some row ↦ elim (fp_rows b n src_stride e rows (drop src_stride src) (drop n dst)) [
            | none ↦ none
            | some rest ↦ some (inverted one_minus e.photometric row ++ rest)
          ]
        ]
      ]

  unfoldable pub unpack_valid :
      Predictor → ℕ → List ℕ → List ℕ → ChunkEncoding → Option (Result (List ℕ))
  unfolding fp_rows
  unpack_valid floating_point b src dst e =
      elim (fp_rows b (e.data_w * e.spp) (e.tile_w * e.spp * b) e e.data_h src dst) [
        | none ↦ none
        | some unpacked ↦ some (ok unpacked)
      ]
  unpack_valid no_predictor b src dst e =
      elim (unpack_samples (is_little e.byte_order) e b src dst) [
        | none ↦ none
        | some unpacked ↦ some (ok (inverted one_minus e.photometric unpacked))
      ]
  unpack_valid horizontal b src dst e = some (err invalid_metadata)
  unpack_valid (unknown_predictor n) b src dst e = some (err invalid_metadata)

  unfoldable pub unpack_float : ℕ → List ℕ → List ℕ → ChunkEncoding → Option (Result (List ℕ))
  unfolding unpack_valid
  unpack_float b src dst e = elim (validate e (length src) (length dst) b) [
    | err x ↦ some (err x)
    | ok _ ↦ unpack_valid e.predictor b src dst e
  ]

  unfoldable pub unpack_f32 : List ℕ → List ℕ → ChunkEncoding → Option (Result (List ℕ))
  unfolding unpack_float
  unpack_f32 src dst e = unpack_float 4 src dst e

  unfoldable pub unpack_f64 : List ℕ → List ℕ → ChunkEncoding → Option (Result (List ℕ))
  unfolding unpack_float
  unpack_f64 src dst e = unpack_float 8 src dst e
