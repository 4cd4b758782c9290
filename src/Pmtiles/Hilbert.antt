-- ===== src/Pmtiles/Hilbert.antt =====
-- The ids of the tiles of `zxy_to_tile_id`, `tile_id_to_z` and `tile_id_to_zxy` of
-- crates/raster-h3-core/src/pmtiles/writer.rs: the levels' ranges, and in each the Hilbert curve.
pub mod Curve
pub mod RoundTrip
use raster_h.Common.{ℕ, zero, suc, ◌+◌, ◌-◌, ◌*◌, ◌/◌, ◌%◌, ◌^◌, ltb, ◌==◌, if◌then◌else◌}

-- `(3 * rx) ^ ry` of two bits.
unfoldable pub quadrant : ℕ → ℕ → ℕ
quadrant rx ry = if rx == 1 then (if ry == 1 then 2 else 3) else (if ry == 1 then 1 else 0)

-- The corner of side `s` turned: the blocks under `if ry == 0` of both loops.
unfoldable pub turn : ℕ → ℕ → ℕ → ℕ × ℕ → ℕ × ℕ
turn s rx ry (x, y) =
    if ry == 0 then (if rx == 1 then (s - 1 - y, s - 1 - x) else (y, x)) else (x, y)

-- The loop of `zxy_to_tile_id` from `s = 2 ^ k / 2` down. `t & s` is the bit `k`, `t & (s - 1)`
-- the bits below it.
unfoldable pub hilbert_index : ℕ → ℕ × ℕ → ℕ
unfolding quadrant turn
hilbert_index zero p = 0
hilbert_index (suc k) (tx, ty) =
    let s = 2 ^ k in
    let rx = (tx / s) % 2 in
    let ry = (ty / s) % 2 in
    s * s * quadrant rx ry + hilbert_index k (turn s rx ry (tx % s, ty % s))

unfoldable pub zxy_to_tile_id : ℕ → ℕ → ℕ → ℕ
unfolding hilbert_index
zxy_to_tile_id z x y = if z == 0 then 0 else (2 ^ (2 * z) - 1) / 3 + hilbert_index z (x, y)

-- The bits of a number below 2 ^ fuel, without its leading zeros.
unfoldable pub bit_width : ℕ → ℕ → ℕ
bit_width zero v = 0
bit_width (suc fuel) v = let rest = bit_width fuel (v / 2) in if v == 0 then 0 else suc rest

unfoldable pub leading_zeros : ℕ → ℕ
unfolding bit_width
leading_zeros v = 64 - bit_width 64 v

unfoldable pub tile_id_to_z : ℕ → ℕ
unfolding leading_zeros
tile_id_to_z i = (63 - leading_zeros (3 * i + 1)) / 2

-- `x += s * rx; y += s * ry` after the turn; `ry` is the low bit of `t ^ rx`.
unfoldable pub place : ℕ → ℕ → ℕ × ℕ → ℕ × ℕ
unfolding turn
place s t p =
    let rx = (t / 2) % 2 in
    let ry = (t + rx) % 2 in let q = turn s rx ry p in (q.0 + s * rx, q.1 + s * ry)

-- The loop of `tile_id_to_zxy`: `s` doubles from 1 to 2 ^ z, in z rounds.
unfoldable pub zxy_loop : ℕ → ℕ → ℕ → ℕ × ℕ → ℕ × ℕ
unfolding place
zxy_loop zero s t p = p
zxy_loop (suc rounds) s t p = zxy_loop rounds (s * 2) (t / 4) (place s t p)

unfoldable pub tile_id_to_zxy : ℕ → ℕ × ℕ × ℕ
unfolding tile_id_to_z zxy_loop
tile_id_to_zxy i =
    if i == 0
    then (0, 0, 0)
    else let z = tile_id_to_z i in
      let p = zxy_loop z 1 (i - (2 ^ (2 * z) - 1) / 3) (0, 0) in (z, p.0 % 2 ^ 32, p.1 % 2 ^ 32)
