-- ===== src/Raster/Predictor/Integers.antt =====
-- Chunks that a TIFF encoder writes for `unpack_integer_samples` of
-- crates/raster-h3-core/src/raster/predictor.rs: the samples mirrored where white is zero and they are
-- unsigned, differenced, and put into bytes by rows.
use raster_h.Common.{
  ℕ, suc, ◌*◌, ◌≤◌, ◌≡◌, refl, ap, ap₂, sym, ◌∙◌, true, some, List, [], ◌∷◌, ◌++◌, append_assoc,
  map, if◌then◌else◌, Bool-cases, inl, inr, ◌-◌, ◌^◌, length, length-append, length-map, take, drop,
  take_front, drop_front, All, leb, arith,
}
use raster_h.Raster.Predictor.{
  Predictor, no_predictor, horizontal, floating_point, unknown_predictor, PhotometricInterpretation,
  white_is_zero, other_interpretation, ChunkEncoding, TiffSample, predict_rows, predict_row,
  predicted, apply_horizontal_predictor, invert_white_is_zero, inverted,
}
use raster_h.Raster.Predictor.Differences.{
  Fits, difference, length-difference, difference-Fits, predict_row-difference,
}
use raster_h.Raster.Predictor.Samples.{Rows, pack, flatten, AreRows, FitRows}

-- A change of the samples of each row, with the padding kept.
unfoldable pub map_rows : (List ℕ → List ℕ) → Rows → Rows
map_rows f [] = []
map_rows f ((row, pad) ∷ rows) = (f row, pad) ∷ map_rows f rows

unfoldable pub differenced : Predictor → ℕ → ℕ → List ℕ → List ℕ
differenced no_predictor b spp row = row
differenced horizontal b spp row = difference b spp row
differenced floating_point b spp row = row
differenced (unknown_predictor n) b spp row = row

-- How samples are stored: where white is zero, an unsigned one as its mirror image in the range of
-- its type, a signed one as it is.
unfoldable pub stored : TiffSample → PhotometricInterpretation → List ℕ → List ℕ
stored t (other_interpretation n) row = row
stored t white_is_zero row =
    if t.signed then row else map (λ x. let largest : ℕ = 256 ^ t.bytes - 1 in largest - x) row

-- The rows of a chunk, with a way to store samples.
abbrev pub encode_with : (List ℕ → List ℕ) → TiffSample → ChunkEncoding → Rows → List ℕ
encode_with store t e rows =
    pack e.byte_order t.bytes
      (map_rows (λ row. differenced e.predictor t.bytes e.spp (store row)) rows)

-- What an encoder writes for the rows of an image.
unfoldable pub encode_chunk : TiffSample → ChunkEncoding → Rows → List ℕ
unfolding map_rows differenced stored
encode_chunk t e rows = encode_with (stored t e.photometric) t e rows

map_same : (row : List ℕ) → map (λ x. x) row ≡ row
map_same [] = refl
map_same (x ∷ row) = ap (λ r. x ∷ r) (map_same row)

-- The decoder inverts samples as they are stored.
pub inverted-stored :
    (t : TiffSample) (p : PhotometricInterpretation) (row : List ℕ)
    → inverted (invert_white_is_zero t) p row ≡ stored t p row
unfolding inverted invert_white_is_zero stored
inverted-stored t (other_interpretation n) row = refl
inverted-stored t white_is_zero row = elim (Bool-cases t.signed) [
  | inl signed ↦ rw signed (map_same row)
  | inr unsigned ↦ rw unsigned refl
]

pub length-map_rows : (f : List ℕ → List ℕ) (rows : Rows) → length (map_rows f rows) ≡ length rows
unfolding map_rows
length-map_rows f [] = refl
length-map_rows f ((row, pad) ∷ rows) = ap suc (length-map_rows f rows)

pub map_rows-AreRows :
    (f : List ℕ → List ℕ) (b n stride : ℕ) (rows : Rows)
    → ((row : List ℕ) → length (f row) ≡ length row)
    → AreRows b n stride rows
    → AreRows b n stride (map_rows f rows)
unfolding map_rows AreRows
map_rows-AreRows f b n stride [] keeps h = tt
map_rows-AreRows f b n stride ((row, pad) ∷ []) keeps h = keeps row ∙ h
map_rows-AreRows f b n stride ((row, pad) ∷ next ∷ rows) keeps h =
    (keeps row ∙ h.0, h.1, map_rows-AreRows f b n stride (next ∷ rows) keeps h.2)

pub map_rows-FitRows :
    (f : List ℕ → List ℕ) (b : ℕ) (rows : Rows)
    → ((row : List ℕ) → All (Fits b) row → All (Fits b) (f row))
    → FitRows b rows
    → FitRows b (map_rows f rows)
unfolding map_rows
map_rows-FitRows f b [] keeps h = tt
map_rows-FitRows f b ((row, pad) ∷ rows) keeps h =
    (keeps row h.0, map_rows-FitRows f b rows keeps h.1)

module _ (t : TiffSample) where
  invert_twice : (x : ℕ) → Fits t.bytes x → invert_white_is_zero t (invert_white_is_zero t x) ≡ x
  unfolding invert_white_is_zero
  invert_twice x h = ground arith

  invert-Fits : (x : ℕ) → Fits t.bytes x → Fits t.bytes (invert_white_is_zero t x)
  unfolding invert_white_is_zero
  invert-Fits x h = ground arith

  inverted_twice :
      (p : PhotometricInterpretation) (row : List ℕ)
      → All (Fits t.bytes) row
      → inverted (invert_white_is_zero t) p (inverted (invert_white_is_zero t) p row) ≡ row
  unfolding inverted
  inverted_twice (other_interpretation n) row h = refl
  inverted_twice white_is_zero [] h = refl
  inverted_twice white_is_zero (x ∷ row) h =
      ap₂ (λ y ys. y ∷ ys) (invert_twice x h.0) (inverted_twice white_is_zero row h.1)

  pub inverted-Fits :
      (p : PhotometricInterpretation) (row : List ℕ)
      → All (Fits t.bytes) row
      → All (Fits t.bytes) (inverted (invert_white_is_zero t) p row)
  unfolding inverted
  inverted-Fits (other_interpretation n) row h = h
  inverted-Fits white_is_zero [] h = tt
  inverted-Fits white_is_zero (x ∷ row) h = (invert-Fits x h.0, inverted-Fits white_is_zero row h.1)

  pub length-inverted :
      (p : PhotometricInterpretation) (row : List ℕ)
      → length (inverted (invert_white_is_zero t) p row) ≡ length row
  unfolding inverted
  length-inverted (other_interpretation n) row = refl
  length-inverted white_is_zero row = length-map (invert_white_is_zero t) row

  inverted-append :
      (p : PhotometricInterpretation) (xs ys : List ℕ)
      → inverted (invert_white_is_zero t) p (xs ++ ys)
        ≡ inverted (invert_white_is_zero t) p xs ++ inverted (invert_white_is_zero t) p ys
  unfolding inverted
  inverted-append (other_interpretation n) xs ys = refl
  inverted-append white_is_zero [] ys = refl
  inverted-append white_is_zero (x ∷ xs) ys =
      ap (λ u. invert_white_is_zero t x ∷ u) (inverted-append white_is_zero xs ys)

map_rows_self : (rows : Rows) → map_rows (λ row. row) rows ≡ rows
unfolding map_rows
map_rows_self [] = refl
map_rows_self ((row, pad) ∷ rows) = ap (λ r. (row, pad) ∷ r) (map_rows_self rows)

abbrev pub HaveLength : ℕ → Rows → Type 0
HaveLength n rows = All (λ r. length r.0 ≡ n) rows

pub AreRows-HaveLength :
    (b n stride : ℕ) (rows : Rows) → AreRows b n stride rows → HaveLength n rows
unfolding AreRows
AreRows-HaveLength b n stride [] h = tt
AreRows-HaveLength b n stride ((row, pad) ∷ []) h = (h, tt)
AreRows-HaveLength b n stride ((row, pad) ∷ next ∷ rows) h =
    (h.0, AreRows-HaveLength b n stride (next ∷ rows) h.2)

predict_rows-step :
    (b spp n rows : ℕ) (all row rest : List ℕ)
    → n ≤ length all
    → predict_row b spp (take n all) ≡ row
    → predict_rows b spp n rows (drop n all) ≡ some rest
    → predict_rows b spp n (suc rows) all ≡ some (row ++ rest)
unfolding predict_rows
predict_rows-step b spp n rows all row rest long first behind =
    rw
      (predict_rows, (let e : leb n (length all) ≡ true = ground (arith, long) in e), behind, first)
      refl

pub length-differenced :
    (p : Predictor) (b spp : ℕ) (row : List ℕ) → length (differenced p b spp row) ≡ length row
unfolding differenced
length-differenced no_predictor b spp row = refl
length-differenced horizontal b spp row = length-difference b spp row
length-differenced floating_point b spp row = refl
length-differenced (unknown_predictor n) b spp row = refl

pub differenced-Fits :
    (p : Predictor) (b spp : ℕ) (row : List ℕ)
    → All (Fits b) row
    → All (Fits b) (differenced p b spp row)
unfolding differenced
differenced-Fits no_predictor b spp row f = f
differenced-Fits horizontal b spp row f = difference-Fits b spp row f
differenced-Fits floating_point b spp row f = f
differenced-Fits (unknown_predictor n) b spp row f = f

-- The rows of differences are summed up to the rows.
predict_rows-difference :
    (b spp n : ℕ) (rows : Rows) (behind : List ℕ)
    → 1 ≤ spp
    → spp ≤ n
    → HaveLength n rows
    → FitRows b rows
    → predict_rows b spp n (length rows) (flatten (map_rows (difference b spp) rows) ++ behind)
      ≡ some (flatten rows ++ behind)
unfolding map_rows flatten
predict_rows-difference b spp n [] behind pos wide h f = unfold predict_rows in refl
predict_rows-difference b spp n ((row, pad) ∷ rows) behind pos wide h f =
    let own : List ℕ = difference b spp row in
    let more : List ℕ = flatten (map_rows (difference b spp) rows) ++ behind in
    let count : length own ≡ n = length-difference b spp row ∙ h.0 in
    ap (predict_rows b spp n (suc (length rows)))
      (append_assoc own (flatten (map_rows (difference b spp) rows)) behind)
    ∙ predict_rows-step b spp n (length rows) (own ++ more) row (flatten rows ++ behind)
        (omega (arith, length-append own more, count))
        (ap (predict_row b spp) (take_front n own more count)
          ∙ predict_row-difference b spp row pos (omega (arith, h.0, wide)) f.0)
        (ap (predict_rows b spp n (length rows)) (drop_front n own more count)
          ∙ predict_rows-difference b spp n rows behind pos wide h.1 f.1)
    ∙ ap some (sym (append_assoc row (flatten rows) behind))

pub map_rows-HaveLength :
    (f : List ℕ → List ℕ) (n : ℕ) (rows : Rows)
    → ((row : List ℕ) → length (f row) ≡ length row)
    → HaveLength n rows
    → HaveLength n (map_rows f rows)
unfolding map_rows
map_rows-HaveLength f n [] keeps h = tt
map_rows-HaveLength f n ((row, pad) ∷ rows) keeps h =
    (keeps row ∙ h.0, map_rows-HaveLength f n rows keeps h.1)

-- Whatever the predictor, decoding its rows gives what was encoded.
pub predicted-differenced :
    (p : Predictor) (t : TiffSample) (e : ChunkEncoding) (rows : Rows) (behind : List ℕ)
    → e.data_h ≡ length rows
    → 1 ≤ e.spp
    → e.spp ≤ e.data_w * e.spp
    → HaveLength (e.data_w * e.spp) rows
    → FitRows t.bytes rows
    → predicted p t e (flatten (map_rows (differenced p t.bytes e.spp) rows) ++ behind)
      ≡ some (flatten rows ++ behind)
unfolding differenced apply_horizontal_predictor
predicted-differenced no_predictor t e rows behind height pos wide h f =
    ap (λ r. some (flatten r ++ behind)) (map_rows_self rows)
predicted-differenced floating_point t e rows behind height pos wide h f =
    ap (λ r. some (flatten r ++ behind)) (map_rows_self rows)
predicted-differenced (unknown_predictor n) t e rows behind height pos wide h f =
    ap (λ r. some (flatten r ++ behind)) (map_rows_self rows)
predicted-differenced horizontal t e rows behind height pos wide h f =
    ap
      (λ k.
        predict_rows t.bytes e.spp (e.data_w * e.spp) k
          (flatten (map_rows (difference t.bytes e.spp) rows) ++ behind))
      height
    ∙ predict_rows-difference t.bytes e.spp (e.data_w * e.spp) rows behind pos wide h f

pub map_rows-map_rows :
    (f g : List ℕ → List ℕ) (rows : Rows)
    → map_rows (λ row. f (g row)) rows ≡ map_rows f (map_rows g rows)
unfolding map_rows
map_rows-map_rows f g [] = refl
map_rows-map_rows f g ((row, pad) ∷ rows) =
    ap (λ r. (f (g row), pad) ∷ r) (map_rows-map_rows f g rows)

pub inverted-flatten :
    (t : TiffSample) (p : PhotometricInterpretation) (rows : Rows) (behind : List ℕ)
    → FitRows t.bytes rows
    → inverted
        (invert_white_is_zero t)
        p
        (flatten (map_rows (inverted (invert_white_is_zero t) p) rows) ++ behind)
      ≡ flatten rows ++ inverted (invert_white_is_zero t) p behind
unfolding map_rows flatten
inverted-flatten t p [] behind f = refl
inverted-flatten t p ((row, pad) ∷ rows) behind f =
    let i = inverted (invert_white_is_zero t) p in
    ap i (append_assoc (i row) (flatten (map_rows i rows)) behind)
    ∙ inverted-append t p (i row) (flatten (map_rows i rows) ++ behind)
    ∙ ap₂ (λ x y. x ++ y) (inverted_twice t p row f.0) (inverted-flatten t p rows behind f.1)
    ∙ sym (append_assoc row (flatten rows) (i behind))
