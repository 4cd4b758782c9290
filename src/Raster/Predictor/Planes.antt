-- ===== src/Raster/Predictor/Planes.antt =====
-- The floating-point predictor of crates/raster-h3-core/src/raster/predictor.rs on rows that a TIFF
-- encoder wrote: the bytes of the floats by planes, most significant first, and differenced.
use native.Mathlib.Nat.{mul-suc, mul-div_left}
use raster_h.Common.{
  ℕ, zero, suc, ◌+◌, ◌*◌, ◌/◌, ◌≤◌, ◌<◌, ◌≡◌, refl, ap, sym, ◌∙◌, some, List, [], ◌∷◌, ◌++◌, map,
  length, length-append, length-map, take, drop, get_or, get_elem?, get_elem?-append,
  get_elem?-append_right, All, All-append, arith,
}
use raster_h.Common.Bytes.{IsByte, to_le_bytes, to_le_bytes-IsByte}
use raster_h.Common.Text.{reverse}
use raster_h.Raster.Predictor.{big_endian, sample}
use raster_h.Raster.Predictor.Differences.{
  Fits, difference, length-difference, predict_row-difference,
}
use raster_h.Raster.Predictor.Floats.{gather, reassemble, fp_predict}
use raster_h.Raster.Predictor.Samples.{sample_bytes, length-sample_bytes, sample-sample_bytes}

byte : ℕ → ℕ → ℕ → ℕ
byte b j x = get_or (sample_bytes big_endian b x) j 0

planes : ℕ → ℕ → ℕ → List ℕ → List ℕ
unfolding byte
planes b zero j row = []
planes b (suc left) j row = map (byte b j) row ++ planes b left (j + 1) row

unfoldable pub encoded_floats : ℕ → ℕ → List ℕ → List ℕ
unfolding planes
encoded_floats b spp row = difference 1 spp (planes b b 0 row)

length-planes : (b left j : ℕ) (row : List ℕ) → length (planes b left j row) ≡ length row * left
unfolding planes
length-planes b zero j row = omega arith
length-planes b (suc left) j row = omega (
  arith,
  length-append (map (byte b j) row) (planes b left (j + 1) row),
  length-map (byte b j) row,
  length-planes b left (j + 1) row,
  mul-suc (length row) left,
)

get_or-byte : (bs : List ℕ) (j : ℕ) → All IsByte bs → get_or bs j 0 < 256
get_or-byte [] j h = omega arith
get_or-byte (x ∷ bs) zero h = h.0
get_or-byte (x ∷ bs) (suc j) h = get_or-byte bs j h.1

reverse-IsByte : (bs : List ℕ) → All IsByte bs → All IsByte (reverse bs)
reverse-IsByte [] h = tt
reverse-IsByte (x ∷ bs) h =
    All-append IsByte (reverse bs) (x ∷ []) (reverse-IsByte bs h.1) (h.0, tt)

byte-Fits : (b j x : ℕ) → Fits 1 (byte b j x)
unfolding byte sample_bytes
byte-Fits b j x =
    get_or-byte (reverse (to_le_bytes b x)) j
      (reverse-IsByte (to_le_bytes b x) (to_le_bytes-IsByte b x))

plane-Fits : (b j : ℕ) (row : List ℕ) → All (Fits 1) (map (byte b j) row)
plane-Fits b j [] = tt
plane-Fits b j (x ∷ row) = (byte-Fits b j x, plane-Fits b j row)

planes-Fits : (b left j : ℕ) (row : List ℕ) → All (Fits 1) (planes b left j row)
unfolding planes
planes-Fits b zero j row = tt
planes-Fits b (suc left) j row =
    All-append (Fits 1) (map (byte b j) row) (planes b left (j + 1) row) (plane-Fits b j row)
      (planes-Fits b left (j + 1) row)

get_elem?-map :
    (f : ℕ → ℕ) (xs : List ℕ) (i x : ℕ)
    → get_elem? xs i ≡ some x
    → get_elem? (map f xs) i ≡ some (f x)
get_elem?-map f [] i x h = cc
get_elem?-map f (y ∷ xs) zero x h = cc
get_elem?-map f (y ∷ xs) (suc i) x h = get_elem?-map f xs i x h

-- Plane `m` holds that byte of every float.
get_elem?-planes :
    (b left m : ℕ) (j : ℕ) (row : List ℕ) (i x : ℕ)
    → m < left
    → get_elem? row i ≡ some x
    → get_elem? (planes b left j row) (length row * m + i) ≡ some (byte b (j + m) x)
unfolding planes
get_elem?-planes b zero m j row i x h here = absurd (omega arith)
get_elem?-planes b (suc left) zero j row i x h here =
    ap (get_elem? (map (byte b j) row ++ planes b left (j + 1) row))
      (let e : length row * 0 + i ≡ i = omega arith in e)
    ∙ get_elem?-append (map (byte b j) row) (planes b left (j + 1) row) i (byte b j x)
        (get_elem?-map (byte b j) row i x here)
    ∙ ap (λ k. some (byte b k x)) (let e : j ≡ j + 0 = omega arith in e)
get_elem?-planes b (suc left) (suc m) j row i x h here =
    let own = map (byte b j) row in
    let rest = planes b left (j + 1) row in
    ap (get_elem? (own ++ rest)) (
      let e : length row * suc m + i ≡ length own + (length row * m + i) =
        omega (arith, mul-suc (length row) m, length-map (byte b j) row) in
      e)
    ∙ get_elem?-append_right own rest (length row * m + i)
    ∙ get_elem?-planes b left m (j + 1) row i x (omega arith) here
    ∙ ap (λ k. some (byte b k x)) (let e : j + 1 + m ≡ j + suc m = omega arith in e)

-- An element, and the list from it on.
element :
    (b : ℕ) (xs : List ℕ) (i : ℕ)
    → i < length xs
    → All (Fits b) xs
    → (x : ℕ) × (get_elem? xs i ≡ some x) × (drop i xs ≡ x ∷ drop (i + 1) xs) × Fits b x
element b [] i h f = absurd (omega arith)
element b (x ∷ xs) zero h f = (x, refl, refl, f.0)
element b (x ∷ xs) (suc i) h f =
    let (y, here, split, fit) = element b xs i (omega arith) f.1 in
    (
      y,
      here,
      split ∙ ap (λ k. y ∷ drop k (x ∷ xs)) (let e : suc (i + 1) ≡ suc i + 1 = omega arith in e),
      fit,
    )

drop_byte : (bs : List ℕ) (j : ℕ) → j < length bs → drop j bs ≡ get_or bs j 0 ∷ drop (j + 1) bs
drop_byte [] j h = absurd (omega arith)
drop_byte (x ∷ bs) zero h = refl
drop_byte (x ∷ bs) (suc j) h =
    drop_byte bs j (omega arith)
    ∙ ap (λ k. get_or bs j 0 ∷ drop k (x ∷ bs)) (let e : suc (j + 1) ≡ suc j + 1 = omega arith in e)

drop_whole : (bs : List ℕ) (j : ℕ) → length bs ≤ j → drop j bs ≡ []
drop_whole [] zero h = refl
drop_whole [] (suc j) h = refl
drop_whole (x ∷ bs) zero h = absurd (omega arith)
drop_whole (x ∷ bs) (suc j) h = drop_whole bs j (omega arith)

gather-step :
    (input : List ℕ) (plane i left j v : ℕ) (bytes : List ℕ)
    → get_elem? input (plane * j + i) ≡ some v
    → gather input plane i left (j + 1) ≡ some bytes
    → gather input plane i (suc left) j ≡ some (v ∷ bytes)
unfolding gather
gather-step input plane i left j v bytes p q = rw (gather, p, q) refl

gather-planes :
    (b left : ℕ) (j : ℕ) (row : List ℕ) (i x : ℕ)
    → left + j ≡ b
    → get_elem? row i ≡ some x
    → gather (planes b b 0 row) (length row) i left j ≡ some (drop j (sample_bytes big_endian b x))
unfolding byte
gather-planes b zero j row i x h here =
    unfold gather in
    ap some (
      sym (
        drop_whole (sample_bytes big_endian b x) j
          (omega (arith, length-sample_bytes big_endian b x, h))))
gather-planes b (suc left) j row i x h here =
    gather-step (planes b b 0 row) (length row) i left j (byte b (0 + j) x)
      (drop (j + 1) (sample_bytes big_endian b x))
      (get_elem?-planes b b j 0 row i x (omega arith) here)
      (gather-planes b left (j + 1) row i x (omega arith) here)
    ∙ ap (λ k. some (byte b k x ∷ drop (j + 1) (sample_bytes big_endian b x)))
        (let e : 0 + j ≡ j = omega arith in e)
    ∙ ap some (
        sym (
          drop_byte (sample_bytes big_endian b x) j
            (omega (arith, length-sample_bytes big_endian b x, h))))

reassemble-step :
    (b : ℕ) (input : List ℕ) (plane left i : ℕ) (bytes rest : List ℕ)
    → gather input plane i b 0 ≡ some bytes
    → reassemble b input plane left (i + 1) ≡ some rest
    → reassemble b input plane (suc left) i ≡ some (sample big_endian bytes ∷ rest)
unfolding reassemble
reassemble-step b input plane left i bytes rest p q = rw (reassemble, p, q) refl

reassemble-planes :
    (b left i : ℕ) (row : List ℕ)
    → i + left ≤ length row
    → All (Fits b) row
    → reassemble b (planes b b 0 row) (length row) left i ≡ some (take left (drop i row))
reassemble-planes b zero i row h f = unfold reassemble in refl
reassemble-planes b (suc left) i row h f =
    let (x, here, split, fit) = element b row i (omega arith) f in
    reassemble-step b (planes b b 0 row) (length row) left i (sample_bytes big_endian b x)
      (take left (drop (i + 1) row)) (gather-planes b b 0 row i x (omega arith) here)
      (reassemble-planes b left (i + 1) row (omega arith) f)
    ∙ ap (λ y. some (y ∷ take left (drop (i + 1) row))) (sample-sample_bytes big_endian b x fit)
    ∙ ap (λ t. some (take (suc left) t)) (sym split)

-- A row is decoded as its first floats.
pub fp_predict-encoded_floats :
    (b spp n : ℕ) (row : List ℕ)
    → 1 ≤ b
    → 1 ≤ spp
    → spp ≤ length row * b
    → n ≤ length row
    → All (Fits b) row
    → fp_predict b (encoded_floats b spp row) n spp ≡ some (take n row)
unfolding fp_predict encoded_floats
fp_predict-encoded_floats b spp n row pos one wide room f =
    let raw = planes b b 0 row in
    let count = length-planes b b 0 row in
    let summed =
      predict_row-difference 1 spp raw one (omega (arith, count, wide)) (planes-Fits b b 0 row) in
    let plane : length raw / b ≡ length row =
      ap (λ k. k / b) count ∙ mul-div_left (length row) pos in
    rw (summed, plane) (reassemble-planes b n 0 row (omega arith) f)

pub length-encoded_floats :
    (b spp : ℕ) (row : List ℕ) → length (encoded_floats b spp row) ≡ length row * b
unfolding encoded_floats
length-encoded_floats b spp row =
    length-difference 1 spp (planes b b 0 row) ∙ length-planes b b 0 row
