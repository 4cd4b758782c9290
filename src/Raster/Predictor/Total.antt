-- ===== src/Raster/Predictor/Total.antt =====
-- `unpack_integer_samples` of crates/raster-h3-core/src/raster/predictor.rs on any bytes, target and
-- layout: where its slices lie.
use native.Mathlib.Nat.{mul_comm, mul_assoc, mul-suc, suc-mul, mul-le-mul_right}
use raster_h.Common.{
  ℕ, zero, suc, ◌+◌, ◌-◌, ◌*◌, ◌≤◌, ◌≡◌, refl, ap, sym, ◌∙◌, subst, Bool, true, false, Option, some,
  List, [], ◌∷◌, ◌++◌, length, length-append, length-map, take, drop, set, get_or, length-take,
  length-drop, leb, ◌==◌, ==_iff, arith, ◌||◌, ◌&&◌, ok, err, invalid_metadata, inl, inr, if-elim,
  ◌⊎◌,
}
use raster_h.Raster.Predictor.{
  TiffByteOrder, little_endian, Predictor, no_predictor, horizontal, floating_point,
  unknown_predictor, ChunkEncoding, TiffSample, validate, wrapping_add, is_little, samples,
  copy_rows, copy_all, unpack_samples, predict_from, predict_rows, predict_row, predicted,
  apply_horizontal_predictor, invert_white_is_zero, inverted, unpack_integer_samples, last_row,
  PhotometricInterpretation, white_is_zero, other_interpretation,
}
use raster_h.Raster.Predictor.RoundTrip.{unpack-parts}
use raster_h.Raster.Predictor.Validate.{IsValid, validate-IsValid, validate-cases}

-- A result, with as many samples as the target has.
abbrev pub Fills : ℕ → Option (List ℕ) → Type 0
Fills n o = (out : List ℕ) × (o ≡ some out) × (length out ≡ n)

length-samples : (order : TiffByteOrder) (b n : ℕ) (s : List ℕ) → length (samples order b n s) ≡ n
unfolding samples
length-samples order b zero s = refl
length-samples order b (suc n) s = ap suc (length-samples order b n (drop b s))

pub copy_rows-Fills :
    (order : TiffByteOrder) (b n stride k : ℕ) (src dst : List ℕ)
    → stride * k + n * b ≤ length src
    → suc k * n ≤ length dst
    → Fills (length dst) (copy_rows order b n stride (suc k) src dst)
unfolding copy_rows
copy_rows-Fills order b n stride zero src dst long room =
    let read = samples order b n (take (n * b) src) in
    let enough : (leb (n * b) (length src) && leb n (length dst)) ≡ true =
      ground (arith, long, room) in
    (
      read ++ drop n dst,
      rw (copy_rows, enough) refl,
      omega (
        arith,
        length-append read (drop n dst),
        length-samples order b n (take (n * b) src),
        length-drop n dst,
        room,
      ),
    )
copy_rows-Fills order b n stride (suc k) src dst long room =
    let read = samples order b n (take (n * b) src) in
    let enough : (leb (n * b) (length src) && leb n (length dst)) ≡ true =
      ground (arith, long, room, suc-mul (suc k) n) in
    let (rest, e, count) =
      copy_rows-Fills order b n stride k (drop stride src) (drop n dst)
        (omega (arith, length-drop stride src, mul-suc stride k, long))
        (omega (arith, length-drop n dst, suc-mul (suc k) n, room)) in
    (
      read ++ rest,
      rw (copy_rows, enough, e) refl,
      omega (
        arith,
        length-append read rest,
        length-samples order b n (take (n * b) src),
        length-drop n dst,
        suc-mul (suc k) n,
        room,
        count,
      ),
    )

pub copy_all-Fills :
    (b total : ℕ) (src dst : List ℕ)
    → total * b ≤ length src
    → total ≤ length dst
    → Fills (length dst) (copy_all b total src dst)
unfolding copy_all
copy_all-Fills b total src dst long room =
    let read = samples little_endian b total (take (total * b) src) in
    let enough : (leb (total * b) (length src) && leb total (length dst)) ≡ true =
      ground (arith, long, room) in
    (
      read ++ drop total dst,
      rw enough refl,
      omega (
        arith,
        length-append read (drop total dst),
        length-samples little_endian b total (take (total * b) src),
        length-drop total dst,
        room,
      ),
    )

length-set : (xs : List ℕ) (i v : ℕ) → length (set xs i v) ≡ length xs
length-set [] i v = refl
length-set (x ∷ xs) zero v = refl
length-set (x ∷ xs) (suc i) v = ap suc (length-set xs i v)

pub length-predict_from :
    (b spp left col : ℕ) (row : List ℕ) → length (predict_from b spp left col row) ≡ length row
unfolding predict_from
length-predict_from b spp zero col row = refl
length-predict_from b spp (suc left) col row =
    let v = wrapping_add b (get_or row col 0) (get_or row (col - spp) 0) in
    length-predict_from b spp left (col + 1) (set row col v) ∙ length-set row col v

predict_rows-Fills :
    (b spp n k : ℕ) (all : List ℕ)
    → k * n ≤ length all
    → Fills (length all) (predict_rows b spp n k all)
unfolding predict_rows predict_row
predict_rows-Fills b spp n zero all room = (all, refl, refl)
predict_rows-Fills b spp n (suc k) all room =
    let row = predict_row b spp (take n all) in
    let enough : leb n (length all) ≡ true = ground (arith, room, suc-mul k n) in
    let (rest, e, count) =
      predict_rows-Fills b spp n k (drop n all)
        (omega (arith, length-drop n all, suc-mul k n, room)) in
    (
      row ++ rest,
      rw (predict_rows, enough, e) refl,
      omega (
        arith,
        length-append row rest,
        own n,
        length-take n all,
        length-drop n all,
        suc-mul k n,
        room,
        count,
      ),
    )
  where
    own : (m : ℕ) → length (predict_row b spp (take m all)) ≡ length (take m all)
    own m =
        unfold predict_row in length-predict_from b spp (length (take m all) - spp) spp (take m all)

last_row-le : (p : Predictor) (stride bytes : ℕ) → bytes ≤ stride → bytes ≤ last_row p stride bytes
unfolding last_row
last_row-le no_predictor stride bytes h = omega arith
last_row-le horizontal stride bytes h = omega arith
last_row-le floating_point stride bytes h = h
last_row-le (unknown_predictor n) stride bytes h = omega arith

module _ (e : ChunkEncoding) (b src_len dst_len : ℕ) (v : IsValid e src_len dst_len b) where
  abbrev n : ℕ
  n = e.data_w * e.spp

  abbrev stride : ℕ
  stride = e.tile_w * e.spp * b

  n-le-stride : n * b ≤ stride
  n-le-stride = mul-le-mul_right b (mul-le-mul_right e.spp v.inside)

  pub above : suc (e.data_h - 1) ≡ e.data_h
  above = let some_rows = v.some_rows in omega arith

  -- The rows end inside the source and inside the target.
  rows_inside : stride * (e.data_h - 1) + n * b ≤ src_len
  rows_inside = omega (arith, v.source_is_long, last_row-le e.predictor stride (n * b) n-le-stride)

  pub target_holds : suc (e.data_h - 1) * n ≤ dst_len
  target_holds =
      subst (λ k. k ≤ dst_len) (mul_comm n e.data_h ∙ ap (λ h. h * n) (sym above)) v.target_is_long

  by_rows-Fills :
      (order : TiffByteOrder) (src dst : List ℕ)
      → length src ≡ src_len
      → length dst ≡ dst_len
      → Fills (length dst) (copy_rows order b n stride e.data_h src dst)
  by_rows-Fills order src dst p q =
      subst (λ k. Fills (length dst) (copy_rows order b n stride k src dst)) above
        (copy_rows-Fills order b n stride (e.data_h - 1) src dst (omega (arith, p, rows_inside))
          (omega (arith, q, target_holds)))

  total_is : e.data_w * e.data_h * e.spp ≡ e.data_h * n
  total_is = ap (λ k. k * e.spp) (mul_comm e.data_w e.data_h) ∙ mul_assoc e.data_h e.data_w e.spp

  unpack_samples-Fills :
      (native : Bool) (src dst : List ℕ)
      → length src ≡ src_len
      → length dst ≡ dst_len
      → Fills (length dst) (unpack_samples native e b src dst)
  unfolding unpack_samples
  unpack_samples-Fills false src dst p q = by_rows-Fills e.byte_order src dst p q
  unpack_samples-Fills true src dst p q =
      if-elim (Fills (length dst)) (stride == n * b) _ _
        (λ same. copy_all-Fills b (e.data_w * e.data_h * e.spp) src dst (whole src same p) (
          subst (λ k. k ≤ length dst) (ap (λ h. h * n) above ∙ sym total_is)
            (omega (arith, q, target_holds))))
        (λ _. by_rows-Fills little_endian src dst p q)
    where
      whole :
          (src : List ℕ)
          → (stride == n * b) ≡ true
          → length src ≡ src_len
          → e.data_w * e.data_h * e.spp * b ≤ length src
      whole src same p =
          let equal : stride ≡ n * b = (==_iff stride (n * b)).0 same in
          let inside : n * b * (e.data_h - 1) + n * b ≤ src_len =
            subst (λ s. s * (e.data_h - 1) + n * b ≤ src_len) equal rows_inside in
          let size : e.data_w * e.data_h * e.spp * b ≡ (e.data_h - 1) * (n * b) + n * b =
            ap (λ k. k * b) total_is
            ∙ mul_assoc e.data_h n b
            ∙ ap (λ h. h * (n * b)) (sym above)
            ∙ suc-mul (e.data_h - 1) (n * b) in
          omega (arith, size, inside, mul_comm (n * b) (e.data_h - 1), p)

length-inverted :
    (f : ℕ → ℕ) (p : PhotometricInterpretation) (xs : List ℕ) → length (inverted f p xs) ≡ length xs
unfolding inverted
length-inverted f (other_interpretation k) xs = refl
length-inverted f white_is_zero xs = length-map f xs

predicted-Fills :
    (p : Predictor) (t : TiffSample) (e : ChunkEncoding) (dst : List ℕ)
    → e.data_h * (e.data_w * e.spp) ≤ length dst
    → Fills (length dst) (predicted p t e dst)
unfolding apply_horizontal_predictor
predicted-Fills no_predictor t e dst h = (dst, refl, refl)
predicted-Fills horizontal t e dst h =
    predict_rows-Fills t.bytes e.spp (e.data_w * e.spp) e.data_h dst h
predicted-Fills floating_point t e dst h = (dst, refl, refl)
predicted-Fills (unknown_predictor k) t e dst h = (dst, refl, refl)

invalid-unpack :
    (t : TiffSample) (src dst : List ℕ) (e : ChunkEncoding)
    → validate e (length src) (length dst) t.bytes ≡ err invalid_metadata
    → unpack_integer_samples t src dst e ≡ some (err invalid_metadata)
unfolding unpack_integer_samples
invalid-unpack t src dst e h = rw (unpack_integer_samples, h) refl

-- On every input the code returns: it refuses the layout with an invalid-metadata error, or the
-- layout is valid and the whole target is there, as long as it was.
pub unpack_integer_samples-returns :
    (t : TiffSample) (src dst : List ℕ) (e : ChunkEncoding)
    → (unpack_integer_samples t src dst e ≡ some (err invalid_metadata))
      ⊎ (IsValid e (length src) (length dst) t.bytes
          × ((out : List ℕ) × (unpack_integer_samples t src dst e ≡ some (ok out))
              × (length out ≡ length dst)))
unpack_integer_samples-returns t src dst e =
    elim (validate-cases e (length src) (length dst) t.bytes) [
      | inl bad ↦ inl (invalid-unpack t src dst e bad)
      | inr good ↦
          let v = validate-IsValid e (length src) (length dst) t.bytes good in
          let (copied, e₀, count₀) =
            unpack_samples-Fills e t.bytes (length src) (length dst) v
              ((t.bytes == 1) || is_little e.byte_order) src dst refl refl in
          let width : ℕ = e.data_w * e.spp in
          let room : e.data_h * width ≤ length copied =
            subst (λ k. k ≤ length copied)
              (ap (λ h. h * width) (above e t.bytes (length src) (length dst) v))
              (omega (arith, count₀, target_holds e t.bytes (length src) (length dst) v)) in
          let (summed, e₁, count₁) = predicted-Fills e.predictor t e copied room in
          inr (
            v,
            (
              inverted (invert_white_is_zero t) e.photometric summed,
              unpack-parts t src dst e copied summed good e₀ e₁,
              length-inverted (invert_white_is_zero t) e.photometric summed ∙ count₁ ∙ count₀,
            ),
          )
    ]
