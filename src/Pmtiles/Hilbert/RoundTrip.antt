-- ===== src/Pmtiles/Hilbert/RoundTrip.antt =====
-- `zxy_to_tile_id` of crates/raster-h3-core/src/pmtiles/writer.rs with `tile_id_to_zxy` behind it, and
-- the ids of a level.
use raster_h.Pmtiles.Hilbert.Curve.{hilbert_index-lt, zxy_loop-hilbert_index}
use raster_h.Pmtiles.Hilbert.{
  hilbert_index, zxy_to_tile_id, bit_width, leading_zeros, tile_id_to_z, zxy_loop, tile_id_to_zxy,
}
use raster_h.Common.{
  ℕ, zero, suc, ◌+◌, ◌-◌, ◌*◌, ◌/◌, ◌%◌, ◌^◌, ◌≤◌, ◌<◌, ◌≡◌, inl, inr, refl, ap, ap₂, ◌∙◌, false,
  ltb, ltb→lt, ◌==◌, Bool-cases, arith,
}
use native.Mathlib.Nat.{mod-eq_of_lt, one-le-pow, pow-le-pow_right}

-- 2 ^ n ≤ v < 2 ^ (n + 1): n + 1 bits.
bit_width-eq : (fuel n v : ℕ) → n < fuel → 2 ^ n ≤ v → v < 2 ^ suc n → bit_width fuel v ≡ suc n
unfolding bit_width
bit_width-eq zero n v f lo hi = absurd (omega arith)
bit_width-eq (suc fuel) zero v f lo hi = elim (Bool-cases (v == 0)) [
  | inl none ↦ absurd (ground arith)
  | inr some ↦ rw some (ap suc (width-zero fuel (v / 2) (omega arith)))
]
  where
    width-zero : (fuel v : ℕ) → v ≡ 0 → bit_width fuel v ≡ 0
    width-zero zero v e = unfold bit_width in refl
    width-zero (suc fuel) v e = unfold bit_width in ground arith
bit_width-eq (suc fuel) (suc n) v f lo hi = elim (Bool-cases (v == 0)) [
  | inl none ↦ absurd (ground arith)
  | inr some ↦
      rw some (ap suc (bit_width-eq fuel n (v / 2) (omega arith) (omega arith) (omega arith)))
]

power-four : (z : ℕ) → 2 ^ (2 * z) ≡ 4 ^ z
power-four zero = omega arith
power-four (suc z) =
    ap (λ k. 2 ^ k) (let e : 2 * suc z ≡ suc (suc (2 * z)) = omega arith in e)
    ∙ (let twice : 2 ^ suc (suc (2 * z)) ≡ 4 ^ suc z = omega (arith, power-four z) in twice)

-- The ids of the levels before `z`.
level_start : (z : ℕ) → 3 * ((2 ^ (2 * z) - 1) / 3) + 1 ≡ 4 ^ z
level_start z = omega (arith, power-four z, thirds z)
  where
    thirds : (z : ℕ) → (4 ^ z) % 3 ≡ 1
    thirds zero = omega arith
    thirds (suc z) = omega (arith, thirds z)

tile_id_to_z-eq :
    (z i : ℕ) → z < 32 → 4 ^ z ≤ 3 * i + 1 → 3 * i + 1 < 4 ^ suc z → tile_id_to_z i ≡ z
unfolding tile_id_to_z leading_zeros
tile_id_to_z-eq z i small lo hi = elim (Bool-cases (ltb (3 * i + 1) (2 ^ suc (2 * z)))) [
  | inl low ↦
      let w : bit_width 64 (3 * i + 1) ≡ suc (2 * z) =
        bit_width-eq 64 (2 * z) (3 * i + 1) (omega arith) (omega (arith, power-four z))
          (ltb→lt (3 * i + 1) (2 ^ suc (2 * z)) low) in
      rw w (omega arith)
  | inr high ↦
      let top : 2 ^ suc (suc (2 * z)) ≡ 4 ^ suc z = omega (arith, power-four z) in
      let w : bit_width 64 (3 * i + 1) ≡ suc (suc (2 * z)) =
        bit_width-eq 64 (suc (2 * z)) (3 * i + 1) (omega arith) (ground (arith, high))
          (omega (arith, top)) in
      rw w (omega arith)
]

-- The id of a tile of level `z`, up to 31, lies from (4^z - 1) / 3 on and before the next level's;
-- `tile_id_to_z` finds the level of it.
zxy_to_tile_id-level :
    (z x y : ℕ)
    → z < 32
    → x < 2 ^ z
    → y < 2 ^ z
    → (4 ^ z ≤ 3 * zxy_to_tile_id z x y + 1)
      × (3 * zxy_to_tile_id z x y + 1 < 4 ^ suc z)
      × (tile_id_to_z (zxy_to_tile_id z x y) ≡ z)
unfolding zxy_to_tile_id
zxy_to_tile_id-level zero x y small hx hy =
    (omega arith, omega arith, tile_id_to_z-eq 0 0 small (omega arith) (omega arith))
zxy_to_tile_id-level (suc z) x y small hx hy =
    let d = hilbert_index (suc z) (x, y) in
    let inside : d < 4 ^ suc z = hilbert_index-lt (suc z) x y hx hy in
    let some : (suc z == 0) ≡ false = ground arith in
    let start = level_start (suc z) in
    let id = (2 ^ (2 * suc z) - 1) / 3 + d in
    let lo : 4 ^ suc z ≤ 3 * id + 1 = omega (arith, start) in
    let hi : 3 * id + 1 < 4 ^ suc (suc z) = omega (arith, start, inside) in
    rw some (lo, hi, tile_id_to_z-eq (suc z) id small lo hi)

not_zero : (z i : ℕ) → 4 ^ suc z ≤ 3 * i + 1 → (i == 0) ≡ false
not_zero z zero h =
    absurd (omega (arith, h, one-le-pow z 4 (let four : 0 < 4 = omega arith in four)))
not_zero z (suc i) h = ground arith

in_level :
    (z x y : ℕ)
    → zxy_to_tile_id (suc z) x y - (2 ^ (2 * suc z) - 1) / 3 ≡ hilbert_index (suc z) (x, y)
unfolding zxy_to_tile_id
in_level z x y =
    let d = hilbert_index (suc z) (x, y) in
    let some : (suc z == 0) ≡ false = ground arith in
    rw some
      (let e : (2 ^ (2 * suc z) - 1) / 3 + d - (2 ^ (2 * suc z) - 1) / 3 ≡ d = omega arith in e)

-- The coordinates of an id: those it was made of, for the levels up to 31.
pub tile_id_to_zxy-zxy_to_tile_id :
    (z x y : ℕ) → z < 32 → x < 2 ^ z → y < 2 ^ z → tile_id_to_zxy (zxy_to_tile_id z x y) ≡ (z, x, y)
unfolding tile_id_to_zxy
tile_id_to_zxy-zxy_to_tile_id zero x y small hx hy =
    unfold zxy_to_tile_id in
    ap₂ (λ a b. (let r : ℕ × ℕ × ℕ = (0, a, b) in r)) (let e : 0 ≡ x = omega arith in e)
      (omega arith)
tile_id_to_zxy-zxy_to_tile_id (suc z) x y small hx hy =
    let (lo, hi, level) = zxy_to_tile_id-level (suc z) x y small hx hy in
    let i = zxy_to_tile_id (suc z) x y in
    let some : (i == 0) ≡ false = not_zero z i lo in
    let d = hilbert_index (suc z) (x, y) in
    let rest : i - (2 ^ (2 * suc z) - 1) / 3 ≡ d = in_level z x y in
    let wide : 2 ^ suc z ≤ 2 ^ 32 =
      pow-le-pow_right (let two : 0 < 2 = omega arith in two)
        (let le : suc z ≤ 32 = omega arith in le) in
    let loop : zxy_loop (suc z) 1 (i - (2 ^ (2 * suc z) - 1) / 3) (0, 0) ≡ (x, y) =
      ap (λ t. zxy_loop (suc z) 1 t (0, 0)) rest ∙ zxy_loop-hilbert_index (suc z) x y hx hy in
    rw (some, level, loop)
      (ap₂ (λ a b. (let r : ℕ × ℕ × ℕ = (suc z, a, b) in r))
        (mod-eq_of_lt (let fx : x < 2 ^ 32 = omega arith in fx))
        (mod-eq_of_lt (let fy : y < 2 ^ 32 = omega arith in fy)))
