-- ===== src/Raster/Remote/Slices.antt =====
-- Slices of a file, and what the copies of http_range.rs make of them.
use raster_h.Raster.Remote.{Bytes, ◌>>=◌, done, range, copy_into, RemoteHttpSource, serve_block}
use raster_h.Common.{
  ℕ, zero, suc, ◌+◌, ◌-◌, ◌≤◌, ◌≡◌, refl, sym, ap, ◌∙◌, true, [], ◌∷◌, ◌++◌, length, take, drop,
  min, leb, length-take, length-drop, arith,
}

-- The `n` bytes of the file from `start` on.
abbrev pub slice : Bytes → ℕ → ℕ → Bytes
slice file start n = take n (drop start file)

drop-nil : (n : ℕ) → drop n (let xs : Bytes = [] in xs) ≡ []
drop-nil zero = refl
drop-nil (suc n) = refl

take-nil : (n : ℕ) → take n (let xs : Bytes = [] in xs) ≡ []
take-nil zero = refl
take-nil (suc n) = refl

drop-drop : (a b : ℕ) (xs : Bytes) → drop a (drop b xs) ≡ drop (b + a) xs
drop-drop a zero xs = ap (λ n. drop n xs) (omega arith)
drop-drop a (suc b) [] = drop-nil a ∙ sym (drop-nil (suc b + a))
drop-drop a (suc b) (x ∷ xs) =
    let e : suc (b + a) ≡ suc b + a = omega arith in drop-drop a b xs ∙ ap (λ n. drop n (x ∷ xs)) e

pub drop-take : (o m : ℕ) (xs : Bytes) → drop o (take m xs) ≡ take (m - o) (drop o xs)
drop-take zero m xs = ap (λ n. take n xs) (omega arith)
drop-take (suc o) zero xs =
    ap (λ n. take n (drop (suc o) xs)) (let e : 0 ≡ 0 - suc o = omega arith in e)
drop-take (suc o) (suc m) [] = sym (take-nil (suc m - suc o))
drop-take (suc o) (suc m) (x ∷ xs) =
    let e : m - o ≡ suc m - suc o = omega arith in drop-take o m xs ∙ ap (λ n. take n (drop o xs)) e

take-take : (k m : ℕ) (xs : Bytes) → k ≤ m → take k (take m xs) ≡ take k xs
take-take zero m xs h = refl
take-take (suc k) zero xs h = absurd (omega arith)
take-take (suc k) (suc m) [] h = refl
take-take (suc k) (suc m) (x ∷ xs) h = ap (λ t. x ∷ t) (take-take k m xs (omega arith))

pub slice-slice :
    (file : Bytes) (start size o k : ℕ)
    → o + k ≤ size
    → take k (drop o (slice file start size)) ≡ slice file (start + o) k
slice-slice file start size o k h =
    ap (take k) (drop-take o size (drop start file))
    ∙ take-take k (size - o) (drop o (drop start file)) (omega arith)
    ∙ ap (take k) (drop-drop o start file)

pub length-slice :
    (file : Bytes) (start n : ℕ) → start + n ≤ length file → length (slice file start n) ≡ n
length-slice file start n h = omega (arith, length-take n (drop start file), length-drop start file)

pub copy_into_lem :
    (n : ℕ) (xs out : Bytes)
    → length xs ≡ n
    → n ≤ length out
    → copy_into n xs out ≡ done (xs ++ drop n out)
unfolding copy_into
copy_into_lem n xs out e h = ground arith

pub range-slice :
    (xs : Bytes) (start k : ℕ)
    → start + k ≤ length xs
    → range start (start + k) xs ≡ done (slice xs start k)
unfolding range
range-slice xs start k h =
    let whole : leb (start + k) (length xs) ≡ true = ground arith in
    let e : start + k - start ≡ k = omega arith in rw (whole, e) refl

-- A block that holds the file's bytes serves a read inside it exactly.
pub serve_block-slice :
    (s : RemoteHttpSource) (file block out : Bytes) (start size o k : ℕ)
    → block ≡ slice file start size
    → start + size ≤ length file
    → o + k ≤ size
    → k ≤ length out
    → serve_block s block o k out ≡ done (k, slice file (start + o) k ++ drop k out, s)
unfolding serve_block
serve_block-slice s file block out start size o k e fits inside room =
    let full : length block ≡ size = ap length e ∙ length-slice file start size fits in
    let a : min (length block - o) k ≡ k = omega arith in
    let bytes : slice block o k ≡ slice file (start + o) k =
      ap (λ b. slice b o k) e ∙ slice-slice file start size o k inside in
    rw (a, range-slice block o k (omega arith), ◌>>=◌, bytes)
      (rw
        (
          copy_into_lem k (slice file (start + o) k) out
              (length-slice file (start + o) k (omega arith)) room,
          ◌>>=◌,
        )
        refl)
