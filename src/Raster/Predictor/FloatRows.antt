-- ===== src/Raster/Predictor/FloatRows.antt =====
-- `unpack_f32` and `unpack_f64` of crates/raster-h3-core/src/raster/predictor.rs on a chunk that a
-- TIFF encoder wrote with the floating-point predictor.
use native.Mathlib.Nat.{mul_comm, suc-mul, mul-le-mul_right, one-mul, mul-le-mul_left, mul-one}
use raster_h.Common.{
  ℕ, suc, ◌+◌, ◌*◌, ◌≤◌, ◌≡◌, refl, ap, sym, ◌∙◌, subst, true, some, List, [], ◌∷◌, ◌++◌,
  append_assoc, length, length-append, take, drop, take_front, drop_front, drop-drop, length-drop,
  All, leb, arith, ◌&&◌, ok,
}
use raster_h.Raster.Predictor.{floating_point, ChunkEncoding, validate, inverted}
use raster_h.Raster.Predictor.Differences.{Fits}
use raster_h.Raster.Predictor.Floats.{fp_predict, fp_rows, unpack_valid, unpack_float}
use raster_h.Raster.Predictor.Planes.{
  encoded_floats, length-encoded_floats, fp_predict-encoded_floats,
}
use raster_h.Raster.Predictor.Validate.{validate-IsValid}

-- A row holds the floats of the whole tile, valid columns first.
unfoldable pub pack_floats : ℕ → ℕ → List (List ℕ) → List ℕ
pack_floats b spp [] = []
pack_floats b spp (row ∷ rows) = encoded_floats b spp row ++ pack_floats b spp rows

-- The valid columns of the rows, subtracted from one where white is zero.
unfoldable pub valid_columns : (ℕ → ℕ) → ChunkEncoding → List (List ℕ) → List ℕ
valid_columns one_minus e [] = []
valid_columns one_minus e (row ∷ rows) =
    inverted one_minus e.photometric (take (e.data_w * e.spp) row) ++ valid_columns one_minus e rows

module _ (one_minus : ℕ → ℕ) (b : ℕ) (e : ChunkEncoding) where
  abbrev n : ℕ
  n = e.data_w * e.spp

  abbrev stride : ℕ
  stride = e.tile_w * e.spp * b

  fp_rows-step :
      (k : ℕ) (src dst row rest : List ℕ)
      → stride ≤ length src
      → n ≤ length dst
      → fp_predict b (take stride src) n e.spp ≡ some row
      → fp_rows one_minus b n stride e k (drop stride src) (drop n dst) ≡ some rest
      → fp_rows one_minus b n stride e (suc k) src dst
        ≡ some (inverted one_minus e.photometric row ++ rest)
  unfolding fp_rows
  fp_rows-step k src dst row rest long room first behind = rw (fp_rows, enough, first, behind) refl
    where
      enough : (leb stride (length src) && leb n (length dst)) ≡ true
      enough = ground (arith, long, room)

  fp_rows-pack_floats :
      (rows : List (List ℕ)) (dst : List ℕ)
      → 1 ≤ b
      → 1 ≤ e.spp
      → e.spp ≤ stride
      → n ≤ e.tile_w * e.spp
      → All (λ row. (length row ≡ e.tile_w * e.spp) × All (Fits b) row) rows
      → length rows * n ≤ length dst
      → fp_rows one_minus b n stride e (length rows) (pack_floats b e.spp rows) dst
        ≡ some (valid_columns one_minus e rows ++ drop (length rows * n) dst)
  unfolding pack_floats valid_columns
  fp_rows-pack_floats [] dst pos one wide inside f room =
      unfold fp_rows in ap (λ k. some (drop k dst)) (let z : 0 ≡ 0 * n = omega arith in z)
  fp_rows-pack_floats (row ∷ rows) dst pos one wide inside f room =
      let own : List ℕ = encoded_floats b e.spp row in
      let more : List ℕ = pack_floats b e.spp rows in
      let size : length own ≡ stride = length-encoded_floats b e.spp row ∙ ap (λ k. k * b) f.0.0 in
      let read =
        fp_predict-encoded_floats b e.spp n row pos one
          (subst (λ k. e.spp ≤ k) (ap (λ k. k * b) (sym f.0.0)) wide)
          (subst (λ k. n ≤ k) (sym f.0.0) inside) f.0.1 in
      fp_rows-step (length rows) (own ++ more) dst (take n row)
        (valid_columns one_minus e rows ++ drop (length rows * n) (drop n dst))
        (omega (arith, length-append own more, size)) (omega (arith, suc-mul (length rows) n, room))
        (ap (λ t. fp_predict b t n e.spp) (take_front stride own more size) ∙ read)
        (ap (λ t. fp_rows one_minus b n stride e (length rows) t (drop n dst))
            (drop_front stride own more size)
          ∙ fp_rows-pack_floats rows (drop n dst) pos one wide inside f.1
              (omega (arith, suc-mul (length rows) n, room, length-drop n dst)))
      ∙ ap
          (λ t. some (
            inverted one_minus e.photometric (take n row) ++ (valid_columns one_minus e rows ++ t)))
          (drop-drop (length rows * n) n dst
            ∙ ap (λ k. drop k dst)
                (let z : n + length rows * n ≡ suc (length rows) * n =
                    omega (arith, suc-mul (length rows) n) in
                  z))
      ∙ ap some (
          sym (
            append_assoc (inverted one_minus e.photometric (take n row))
              (valid_columns one_minus e rows) (drop (suc (length rows) * n) dst)))

  unpack_float-parts :
      (src dst out : List ℕ)
      → validate e (length src) (length dst) b ≡ ok tt
      → e.predictor ≡ floating_point
      → fp_rows one_minus b n stride e e.data_h src dst ≡ some out
      → unpack_float one_minus b src dst e ≡ some (ok out)
  unfolding unpack_float
  unpack_float-parts src dst out valid predictor rows =
      rw (unpack_float, valid)
        (subst (λ p. unpack_valid one_minus p b src dst e ≡ some (ok out)) (sym predictor)
          (unfold unpack_valid in rw (unpack_valid, rows) refl))

  -- A chunk of floats (`b` is 4 for f32, 8 for f64) that was written with the floating-point
  -- predictor is decoded as the valid columns of its rows, subtracted from one where white is zero;
  -- what the target held behind them stays. A row has the floats of a whole tile, each in `b` bytes,
  -- and the layout is accepted.
  pub unpack_float-pack_floats :
      (rows : List (List ℕ)) (dst : List ℕ)
      → 1 ≤ b
      → e.predictor ≡ floating_point
      → e.data_h ≡ length rows
      → All (λ row. (length row ≡ e.tile_w * e.spp) × All (Fits b) row) rows
      → validate e (length (pack_floats b e.spp rows)) (length dst) b ≡ ok tt
      → unpack_float one_minus b (pack_floats b e.spp rows) dst e
        ≡ some (ok (valid_columns one_minus e rows ++ drop (length rows * n) dst))
  unpack_float-pack_floats rows dst pos predictor height f valid =
      let v = validate-IsValid e (length (pack_floats b e.spp rows)) (length dst) b valid in
      let inside : n ≤ e.tile_w * e.spp = mul-le-mul_right e.spp v.inside in
      let one_row : e.spp ≤ n =
        subst (λ k. k ≤ n) (one-mul e.spp) (mul-le-mul_right e.spp v.some_columns) in
      let whole : e.tile_w * e.spp ≤ stride =
        subst (λ k. k ≤ stride) (mul-one (e.tile_w * e.spp))
          (mul-le-mul_left (e.tile_w * e.spp) pos) in
      let room : length rows * n ≤ length dst =
        subst (λ k. k ≤ length dst) (ap (λ h. n * h) height ∙ mul_comm n (length rows))
          v.target_is_long in
      unpack_float-parts (pack_floats b e.spp rows) dst _ valid predictor (
        ap (λ h. fp_rows one_minus b n stride e h (pack_floats b e.spp rows) dst) height
        ∙ fp_rows-pack_floats rows dst pos v.some_samples (omega (arith, inside, one_row, whole))
            inside f room)
