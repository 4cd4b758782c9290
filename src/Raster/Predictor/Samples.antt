-- ===== src/Raster/Predictor/Samples.antt =====
-- The bytes of samples, and the row loops of crates/raster-h3-core/src/raster/predictor.rs on
-- chunks that an encoder laid out: rows of samples, each with padding behind it.
use native.Mathlib.Nat.{suc-mul}
use raster_h.Common.{
  ℕ, zero, suc, ◌+◌, ◌*◌, ◌/◌, ◌^◌, ◌≤◌, ◌<◌, ◌≡◌, refl, ap, ap₂, sym, ◌∙◌, true, some, List, [],
  ◌∷◌, ◌++◌, append_assoc, append-nil, length, length-append, take, drop, take_front, drop_front,
  drop-drop, length-drop, All, leb, arith, ◌&&◌,
}
use raster_h.Common.Bytes.{from_le_bytes, to_le_bytes, length-to_le_bytes}
use raster_h.Common.Text.{reverse}
use raster_h.Raster.Predictor.{TiffByteOrder, little_endian, big_endian, sample, samples, copy_rows}
use raster_h.Raster.Predictor.Differences.{Fits}

-- What an encoder writes for a sample and for a row.
unfoldable pub sample_bytes : TiffByteOrder → ℕ → ℕ → List ℕ
sample_bytes little_endian b x = to_le_bytes b x
sample_bytes big_endian b x = reverse (to_le_bytes b x)

unfoldable pub row_bytes : TiffByteOrder → ℕ → List ℕ → List ℕ
unfolding sample_bytes
row_bytes order b [] = []
row_bytes order b (x ∷ xs) = sample_bytes order b x ++ row_bytes order b xs

abbrev pub Rows : Type 0
Rows = List (List ℕ × List ℕ)

unfoldable pub pack : TiffByteOrder → ℕ → Rows → List ℕ
unfolding row_bytes
pack order b [] = []
pack order b ((row, pad) ∷ rows) = (row_bytes order b row ++ pad) ++ pack order b rows

unfoldable pub flatten : Rows → List ℕ
flatten [] = []
flatten ((row, pad) ∷ rows) = row ++ flatten rows

-- Rows of `n` samples, which take `stride` bytes with their padding, but for the last one's.
unfoldable pub AreRows : ℕ → ℕ → ℕ → Rows → Type 0
AreRows b n stride [] = Unit {0}
AreRows b n stride ((row, pad) ∷ []) = length row ≡ n
AreRows b n stride ((row, pad) ∷ next ∷ rows) =
    (length row ≡ n) × (n * b + length pad ≡ stride) × AreRows b n stride (next ∷ rows)

from_le_bytes-to_le_bytes : (b x : ℕ) → x < 256 ^ b → from_le_bytes (to_le_bytes b x) ≡ x
from_le_bytes-to_le_bytes zero x h = omega arith
from_le_bytes-to_le_bytes (suc b) x h =
    omega (arith, from_le_bytes-to_le_bytes b (x / 256) (omega arith))

reverse-append : (xs ys : List ℕ) → reverse (xs ++ ys) ≡ reverse ys ++ reverse xs
reverse-append [] ys = sym (append-nil (reverse ys))
reverse-append (x ∷ xs) ys =
    ap (λ t. t ++ (x ∷ [])) (reverse-append xs ys) ∙ append_assoc (reverse ys) (reverse xs) (x ∷ [])

reverse-reverse : (xs : List ℕ) → reverse (reverse xs) ≡ xs
reverse-reverse [] = refl
reverse-reverse (x ∷ xs) =
    reverse-append (reverse xs) (x ∷ []) ∙ ap (λ t. x ∷ t) (reverse-reverse xs)

length-reverse : (xs : List ℕ) → length (reverse xs) ≡ length xs
length-reverse [] = refl
length-reverse (x ∷ xs) = omega (arith, length-append (reverse xs) (x ∷ []), length-reverse xs)

pub length-sample_bytes : (order : TiffByteOrder) (b x : ℕ) → length (sample_bytes order b x) ≡ b
unfolding sample_bytes
length-sample_bytes little_endian b x = length-to_le_bytes b x
length-sample_bytes big_endian b x = length-reverse (to_le_bytes b x) ∙ length-to_le_bytes b x

pub sample-sample_bytes :
    (order : TiffByteOrder) (b x : ℕ) → Fits b x → sample order (sample_bytes order b x) ≡ x
unfolding sample sample_bytes
sample-sample_bytes little_endian b x h = from_le_bytes-to_le_bytes b x h
sample-sample_bytes big_endian b x h =
    ap from_le_bytes (reverse-reverse (to_le_bytes b x)) ∙ from_le_bytes-to_le_bytes b x h

pub length-row_bytes :
    (order : TiffByteOrder) (b : ℕ) (row : List ℕ) → length (row_bytes order b row) ≡ length row * b
unfolding row_bytes
length-row_bytes order b [] = omega arith
length-row_bytes order b (x ∷ xs) = omega (
  arith,
  length-append (sample_bytes order b x) (row_bytes order b xs),
  length-sample_bytes order b x,
  length-row_bytes order b xs,
  suc-mul (length xs) b,
)

-- A row's bytes are read as the row.
pub samples-row_bytes :
    (order : TiffByteOrder) (b : ℕ) (row : List ℕ)
    → All (Fits b) row
    → samples order b (length row) (row_bytes order b row) ≡ row
unfolding samples row_bytes
samples-row_bytes order b [] h = refl
samples-row_bytes order b (x ∷ xs) h =
    let own = sample_bytes order b x in
    let rest = row_bytes order b xs in
    let cut = length-sample_bytes order b x in
    ap₂ (λ y ys. y ∷ ys)
      (ap (sample order) (take_front b own rest cut) ∙ sample-sample_bytes order b x h.0)
      (ap (samples order b (length xs)) (drop_front b own rest cut)
        ∙ samples-row_bytes order b xs h.1)

abbrev pub FitRows : ℕ → Rows → Type 0
FitRows b rows = All (λ r. All (Fits b) r.0) rows

-- One round of the row loop.
copy_rows-step :
    (order : TiffByteOrder) (b n stride rows : ℕ) (src dst row rest : List ℕ)
    → n * b ≤ length src
    → n ≤ length dst
    → samples order b n (take (n * b) src) ≡ row
    → copy_rows order b n stride rows (drop stride src) (drop n dst) ≡ some rest
    → copy_rows order b n stride (suc rows) src dst ≡ some (row ++ rest)
unfolding copy_rows
copy_rows-step order b n stride rows src dst row rest long room read behind =
    rw (copy_rows, enough, behind, read) refl
  where
    enough : (leb (n * b) (length src) && leb n (length dst)) ≡ true
    enough = ground (arith, long, room)

row_in_front :
    (order : TiffByteOrder) (b n : ℕ) (row pad more : List ℕ)
    → length row ≡ n
    → All (Fits b) row
    → (n * b ≤ length ((row_bytes order b row ++ pad) ++ more))
      × (samples order b n (take (n * b) ((row_bytes order b row ++ pad) ++ more)) ≡ row)
row_in_front order b n row pad more count fits =
    let own = row_bytes order b row in
    let size : length own ≡ n * b = length-row_bytes order b row ∙ ap (λ k. k * b) count in
    (
      omega (arith, length-append (own ++ pad) more, length-append own pad, size),
      ap (λ t. samples order b n (take (n * b) t)) (append_assoc own pad more)
          ∙ ap (samples order b n) (take_front (n * b) own (pad ++ more) size)
          ∙ ap (λ k. samples order b k own) (sym count)
          ∙ samples-row_bytes order b row fits,
    )

-- The row loop reads the rows that were packed, and leaves what is behind them in `dst`.
pub copy_rows-pack :
    (order : TiffByteOrder) (b n stride : ℕ) (rows : Rows) (dst : List ℕ)
    → AreRows b n stride rows
    → FitRows b rows
    → length rows * n ≤ length dst
    → copy_rows order b n stride (length rows) (pack order b rows) dst
      ≡ some (flatten rows ++ drop (length rows * n) dst)
unfolding AreRows pack flatten
copy_rows-pack order b n stride [] dst h f room =
    unfold copy_rows in ap (λ k. some (drop k dst)) (let e : 0 ≡ 0 * n = omega arith in e)
copy_rows-pack order b n stride ((row, pad) ∷ []) dst h f room =
    let front = row_in_front order b n row pad [] h f.0 in
    copy_rows-step order b n stride 0 (pack order b ((row, pad) ∷ [])) dst row (drop n dst) front.0
      (omega arith) front.1 (unfold copy_rows in refl)
    ∙ ap₂ (λ x k. some (x ++ drop k dst)) (sym (append-nil row))
        (let e : n ≡ 1 * n = omega arith in e)
copy_rows-pack order b n stride ((row, pad) ∷ next ∷ rows) dst h f room =
    let more = pack order b (next ∷ rows) in
    let own = row_bytes order b row in
    let front = row_in_front order b n row pad more h.0 f.0 in
    let size : length own ≡ n * b = length-row_bytes order b row ∙ ap (λ k. k * b) h.0 in
    let behind =
      drop_front stride (own ++ pad) more (omega (arith, length-append own pad, size, h.1)) in
    let k = suc (length rows) in
    copy_rows-step order b n stride k (pack order b ((row, pad) ∷ next ∷ rows)) dst row
      (flatten (next ∷ rows) ++ drop (k * n) (drop n dst)) front.0
      (omega (arith, suc-mul k n, room)) front.1
      (ap (λ src. copy_rows order b n stride k src (drop n dst)) behind
        ∙ copy_rows-pack order b n stride (next ∷ rows) (drop n dst) (h.2) f.1
            (omega (arith, suc-mul k n, room, length-drop n dst)))
    ∙ ap₂ (λ x t. some (x ++ t)) refl
        (ap (λ t. flatten (next ∷ rows) ++ t)
          (drop-drop (k * n) n dst
            ∙ ap (λ j. drop j dst)
                (let e : n + k * n ≡ suc k * n = omega (arith, suc-mul k n) in e)))
    ∙ ap some (sym (append_assoc row (flatten (next ∷ rows)) (drop (suc k * n) dst)))
