-- ===== src/Pmtiles/Hilbert/Curve.antt =====
-- The loop of `zxy_to_tile_id` of crates/raster-h3-core/src/pmtiles/writer.rs with that of
-- `tile_id_to_zxy` behind it.
use raster_h.Pmtiles.Hilbert.{quadrant, turn, hilbert_index, place, zxy_loop}
use raster_h.Common.{
  ℕ, zero, suc, ◌+◌, ◌*◌, ◌/◌, ◌%◌, ◌^◌, ◌<◌, ◌≡◌, inl, inr, refl, ap, ap₂, ◌∙◌, ltb, ltb→lt,
  Bool-cases, arith,
}
use native.Mathlib.Nat.{mul_assoc, mul_left_comm, div-eq_of_lt-le, div-add-mod, mod-lt}

-- A step reads two bits of `t`.
place-low : (s d m : ℕ) (p : ℕ × ℕ) → place s (d + 4 * m) p ≡ place s d p
unfolding place
place-low s d m p =
    let rx : ((d + 4 * m) / 2) % 2 ≡ (d / 2) % 2 = omega arith in
    let ry : (d + 4 * m + ((d + 4 * m) / 2) % 2) % 2 ≡ (d + (d / 2) % 2) % 2 = omega arith in
    ap₂ (λ a b. (let q = turn s a b p in (let r : ℕ × ℕ = (q.0 + s * a, q.1 + s * b) in r))) rx ry

-- The loop's last round reads the highest digit.
zxy_loop-last :
    (j s d q : ℕ) (p : ℕ × ℕ)
    → d < 4 ^ j
    → zxy_loop (suc j) s (d + 4 ^ j * q) p ≡ place (s * 2 ^ j) q (zxy_loop j s d p)
unfolding zxy_loop
zxy_loop-last zero s d q p h =
    let t : d + 4 ^ 0 * q ≡ q = omega arith in
    let one : s ≡ s * 2 ^ 0 = omega arith in ap₂ (λ a b. place a b p) one t
zxy_loop-last (suc j) s d q p h =
    let m = 4 ^ j * q in
    let power : 4 ^ suc j ≡ 4 * 4 ^ j = omega arith in
    let product : 4 ^ suc j * q ≡ 4 * m = ap (λ a. a * q) power ∙ mul_assoc 4 (4 ^ j) q in
    let whole : d + 4 ^ suc j * q ≡ d + 4 * m = omega (arith, product) in
    let high : (d + 4 * m) / 4 ≡ d / 4 + m = omega arith in
    let double : 2 * 2 ^ j ≡ 2 ^ suc j = omega arith in
    let scale : s * 2 * 2 ^ j ≡ s * 2 ^ suc j = mul_assoc s 2 (2 ^ j) ∙ ap (λ a. s * a) double in
    let short : d / 4 < 4 ^ j = omega (arith, h, power) in
    ap (λ t. zxy_loop (suc j) (s * 2) (t / 4) (place s t p)) whole
    ∙ ap₂ (zxy_loop (suc j) (s * 2)) high (place-low s d m p)
    ∙ zxy_loop-last j (s * 2) (d / 4) q (place s d p) short
    ∙ ap (λ a. place a q (zxy_loop j (s * 2) (d / 4) (place s d p))) scale

pair-eq : {a b c d : ℕ} → a ≡ c → b ≡ d → (let r : ℕ × ℕ = (a, b) in r) ≡ (c, d)
pair-eq p q = ap₂ (λ x y. (let r : ℕ × ℕ = (x, y) in r)) p q

-- Of two bits: the turned corner stays in the square, and the step of the way back undoes the turn.
corner :
    (s lx ly rx ry : ℕ)
    → lx < s
    → ly < s
    → rx < 2
    → ry < 2
    → ((turn s rx ry (lx, ly)).0 < s)
      × ((turn s rx ry (lx, ly)).1 < s)
      × (place s (quadrant rx ry) (turn s rx ry (lx, ly)) ≡ (lx + s * rx, ly + s * ry))
      × (quadrant rx ry < 4)
unfolding turn place quadrant
corner s lx ly zero zero hx hy a b = (hy, hx, refl, omega arith)
corner s lx ly zero (suc zero) hx hy a b = (hx, hy, refl, omega arith)
corner s lx ly (suc zero) zero hx hy a b =
    (omega arith, omega arith, pair-eq (omega arith) (omega arith), omega arith)
corner s lx ly (suc zero) (suc zero) hx hy a b = (hx, hy, refl, omega arith)
corner s lx ly (suc (suc rx)) ry hx hy a b = absurd (omega arith)
corner s lx ly rx (suc (suc ry)) hx hy a b = absurd (omega arith)

-- A number of the square of twice the side, from its bit and what is below it.
bit-parts :
    (s t : ℕ) → t < s * 2 → (t % s < s) × ((t / s) % 2 < 2) × (t % s + s * ((t / s) % 2) ≡ t)
bit-parts s t h =
    let pos : 0 < s = omega arith in
    let whole : s * (t / s) + t % s ≡ t = div-add-mod t s in
    let below : t % s < s = mod-lt t pos in
    let value : t % s + s * ((t / s) % 2) ≡ t = elim (Bool-cases (ltb t s)) [
      | inl low ↦
          let bit : t / s ≡ 0 = div-eq_of_lt-le s (omega arith) (ground (arith, ltb→lt t s low)) in
          rw bit (let w : s * 0 + t % s ≡ t = rw bit at whole in omega arith)
      | inr up ↦
          let bit : t / s ≡ 1 = div-eq_of_lt-le s (ground arith) (omega arith) in
          rw bit (let w : s * 1 + t % s ≡ t = rw bit at whole in omega arith)
    ] in
    (below, omega arith, value)

squares : (k : ℕ) → 2 ^ k * 2 ^ k ≡ 4 ^ k
squares zero = omega arith
squares (suc k) =
    let a = 2 ^ k in
    let two : 2 ^ suc k ≡ 2 * a = omega arith in
    let shuffle : 2 * a * (2 * a) ≡ 2 * (2 * (a * a)) =
      mul_assoc 2 a (2 * a) ∙ ap (λ x. 2 * x) (mul_left_comm a 2 a) in
    ap₂ (λ x y. x * y) two two ∙ shuffle ∙ omega (arith, squares k)

pub hilbert_index-lt : (k x y : ℕ) → x < 2 ^ k → y < 2 ^ k → hilbert_index k (x, y) < 4 ^ k
unfolding hilbert_index
hilbert_index-lt zero x y hx hy = omega arith
hilbert_index-lt (suc k) x y hx hy =
    let s = 2 ^ k in
    let (lx, bx, ex) = bit-parts s x (omega arith) in
    let (ly, by, ey) = bit-parts s y (omega arith) in
    let rx = (x / s) % 2 in
    let ry = (y / s) % 2 in
    let (tx, ty, back, four) = corner s (x % s) (y % s) rx ry lx ly bx by in
    let square : s * s ≡ 4 ^ k = squares k in
    let rest =
      hilbert_index-lt k (turn s rx ry (x % s, y % s)).0 (turn s rx ry (x % s, y % s)).1 tx ty in
    below (quadrant rx ry) (s * s) (4 ^ k) (4 ^ suc k) _ four square (omega arith) rest
  where
    below : (q p f g d : ℕ) → q < 4 → p ≡ f → g ≡ 4 * f → d < f → p * q + d < g
    below zero p f g d a b e c = omega arith
    below (suc zero) p f g d a b e c = omega arith
    below (suc (suc zero)) p f g d a b e c = omega arith
    below (suc (suc (suc zero))) p f g d a b e c = omega arith
    below (suc (suc (suc (suc q)))) p f g d a b e c = absurd (omega arith)

-- After `z` rounds the loop is back at the coordinates.
pub zxy_loop-hilbert_index :
    (k x y : ℕ) → x < 2 ^ k → y < 2 ^ k → zxy_loop k 1 (hilbert_index k (x, y)) (0, 0) ≡ (x, y)
unfolding hilbert_index
zxy_loop-hilbert_index zero x y hx hy = unfold zxy_loop in pair-eq (omega arith) (omega arith)
zxy_loop-hilbert_index (suc k) x y hx hy =
    let s = 2 ^ k in
    let (lx, bx, ex) = bit-parts s x (omega arith) in
    let (ly, by, ey) = bit-parts s y (omega arith) in
    let rx = (x / s) % 2 in
    let ry = (y / s) % 2 in
    let q = quadrant rx ry in
    let p = turn s rx ry (x % s, y % s) in
    let d = hilbert_index k p in
    let (tx, ty, back, four) = corner s (x % s) (y % s) rx ry lx ly bx by in
    let split : s * s * q + d ≡ d + 4 ^ k * q =
      ap (λ a. a * q + d) (squares k)
      ∙ (let swap : 4 ^ k * q + d ≡ d + 4 ^ k * q = omega arith in swap) in
    let one : 1 * 2 ^ k ≡ s = omega arith in
    ap (λ t. zxy_loop (suc k) 1 t (0, 0)) split
    ∙ zxy_loop-last k 1 d q (0, 0) (hilbert_index-lt k p.0 p.1 tx ty)
    ∙ ap₂ (λ a b. place a q b) one (zxy_loop-hilbert_index k p.0 p.1 tx ty)
    ∙ back
    ∙ pair-eq ex ey
