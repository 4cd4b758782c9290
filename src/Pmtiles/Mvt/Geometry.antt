-- ===== src/Pmtiles/Mvt/Geometry.antt =====
-- The geometry that `MvtLayer::encode` of crates/raster-h3-core/src/pmtiles/mvt.rs writes, read back.
use raster_h.Common.{
  ℕ, zero, suc, ◌+◌, ◌*◌, ◌-◌, ◌/◌, ◌%◌, ◌^◌, ◌≤◌, ◌<◌, ◌≡◌, refl, ap, ◌∙◌, some, List, [], ◌∷◌,
  ◌++◌, append_assoc, append-nil, get_or, All, All-append, arith,
}
use raster_h.Pmtiles.Mvt.Encode.{zigzag_encode, add_i32, sub_i32, line_to, ring}
use raster_h.Pmtiles.Mvt.Layer.{MvtFeature}
use raster_h.Pmtiles.Mvt.Packed.{IsU64, varints, varints-append}
use raster_h.Pmtiles.Mvt.Reader.{
  zigzag_decode, read_points, read_ring, ring_from, close_path, line_count,
}
use raster_h.Pmtiles.Varint.{write_varint}

abbrev pub IsI32Bits : ℕ → Type 0
IsI32Bits v = v < 2 ^ 32

-- The arrays have 14 places, and the ring takes some of them.
pub record IsPolygon (feat : MvtFeature) : Type 0 where
  pub x_bits : All IsI32Bits feat.polygon_x
  pub y_bits : All IsI32Bits feat.polygon_y
  pub offset_bits : feat.wrapped_x_offset < 2 ^ 32
  pub points_count : feat.num_points ≤ 14

-- Decoding gives back every i32.
pub zigzag_decode-zigzag_encode : (v : ℕ) → v < 2 ^ 32 → zigzag_decode (zigzag_encode v) ≡ v
unfolding zigzag_decode zigzag_encode
zigzag_decode-zigzag_encode v h = ground arith

zigzag_encode-lt : (v : ℕ) → zigzag_encode v < 2 ^ 64
unfolding zigzag_encode
zigzag_encode-lt v = ground arith

-- The cursor moved by the difference to a point is at the point, whether or not the difference wraps.
moved :
    (a prev : ℕ)
    → a < 2 ^ 32
    → prev < 2 ^ 32
    → (prev + zigzag_decode (zigzag_encode (sub_i32 a prev))) % 2 ^ 32 ≡ a
moved a prev p q = rw (zigzag_decode-zigzag_encode (sub_i32 a prev) (omega arith)) (omega arith)

pub get_or-lt : (xs : List ℕ) (i : ℕ) → All IsI32Bits xs → get_or xs i 0 < 2 ^ 32
get_or-lt [] i h = omega arith
get_or-lt (x ∷ xs) zero h = h.0
get_or-lt (x ∷ xs) (suc i) h = get_or-lt xs i h.1

module _ (feat : MvtFeature) (offset : ℕ) where
  abbrev pub point_x : ℕ → ℕ
  point_x i = add_i32 (get_or feat.polygon_x i 0) offset

  abbrev pub point_y : ℕ → ℕ
  point_y i = get_or feat.polygon_y i 0

  -- The points `i`, `i + 1`, …, `n` of them.
  unfoldable pub points : ℕ → ℕ → List (ℕ × ℕ)
  points zero i = []
  points (suc n) i = (point_x i, point_y i) ∷ points n (i + 1)

  pub line_params : ℕ → ℕ → ℕ → ℕ → List ℕ
  line_params zero i x y = []
  line_params (suc n) i x y =
      zigzag_encode (sub_i32 (point_x i) x)
      ∷ zigzag_encode (sub_i32 (point_y i) y)
      ∷ line_params n (i + 1) (point_x i) (point_y i)

  pub end_cursor : ℕ → ℕ → ℕ → ℕ → ℕ × ℕ
  end_cursor zero i x y = (x, y)
  end_cursor (suc n) i x y = end_cursor n (i + 1) (point_x i) (point_y i)

  unfoldable pub ring_params : ℕ → ℕ → List ℕ
  ring_params x y =
      9
      ∷ zigzag_encode (sub_i32 (point_x 0) x)
      ∷ zigzag_encode (sub_i32 (point_y 0) y)
      ∷ (2 + (feat.num_points - 1) * 8)
      ∷ (line_params (feat.num_points - 1) 1 (point_x 0) (point_y 0) ++ (15 ∷ []))

  line_to-varints : (n i x y : ℕ) → line_to feat offset n i x y ≡ varints (line_params n i x y)
  unfolding line_to line_params
  line_to-varints zero i x y = refl
  line_to-varints (suc n) i x y =
      append_assoc (write_varint (zigzag_encode (sub_i32 (point_x i) x)))
        (write_varint (zigzag_encode (sub_i32 (point_y i) y)))
        (line_to feat offset n (i + 1) (point_x i) (point_y i))
      ∙ ap
          (λ t.
            write_varint (zigzag_encode (sub_i32 (point_x i) x))
            ++ (write_varint (zigzag_encode (sub_i32 (point_y i) y)) ++ t))
          (line_to-varints n (i + 1) (point_x i) (point_y i))

  pub ring-varints : (x y : ℕ) → ring feat offset x y ≡ varints (ring_params x y)
  unfolding ring ring_params
  ring-varints x y =
      rw
        (
          line_to-varints (feat.num_points - 1) 1 (point_x 0) (point_y 0),
          varints-append (line_params (feat.num_points - 1) 1 (point_x 0) (point_y 0)) (15 ∷ []),
          append-nil (write_varint 15),
        )
        refl

  line_params-IsU64 : (n i x y : ℕ) → All IsU64 (line_params n i x y)
  unfolding line_params
  line_params-IsU64 zero i x y = tt
  line_params-IsU64 (suc n) i x y = (
    zigzag_encode-lt (sub_i32 (point_x i) x),
    (zigzag_encode-lt (sub_i32 (point_y i) y), line_params-IsU64 n (i + 1) (point_x i) (point_y i)),
  )

  pub end_cursor-point :
      (n i x y : ℕ) → end_cursor (suc n) i x y ≡ (point_x (i + n), point_y (i + n))
  unfolding end_cursor
  end_cursor-point zero i x y =
      ap (λ j. (point_x j, point_y j)) (let e : i ≡ i + 0 = omega arith in e)
  end_cursor-point (suc n) i x y =
      end_cursor-point n (i + 1) (point_x i) (point_y i)
      ∙ ap (λ j. (point_x j, point_y j)) (let e : i + 1 + n ≡ i + suc n = omega arith in e)

  module _ (ok : IsPolygon feat) where
    pub ring_params-IsU64 : (x y : ℕ) → All IsU64 (ring_params x y)
    unfolding ring_params
    ring_params-IsU64 x y = (
      omega arith,
      (
        zigzag_encode-lt (sub_i32 (point_x 0) x),
        (
          zigzag_encode-lt (sub_i32 (point_y 0) y),
          (
            let small = ok.points_count in omega arith,
            All-append IsU64 (line_params (feat.num_points - 1) 1 (point_x 0) (point_y 0)) (15 ∷ [])
                (line_params-IsU64 (feat.num_points - 1) 1 (point_x 0) (point_y 0))
                (omega arith, tt),
          ),
        ),
      ),
    )

    read_points-line_params :
        (n i x y : ℕ) (rest : List ℕ)
        → x < 2 ^ 32
        → y < 2 ^ 32
        → read_points n x y (line_params n i x y ++ rest)
          ≡ some (points n i, (end_cursor n i x y).0, (end_cursor n i x y).1, rest)
    unfolding read_points line_params points end_cursor
    read_points-line_params zero i x y rest p q = refl
    read_points-line_params (suc n) i x y rest p q =
        let high = get_or-lt feat.polygon_y i ok.y_bits in
        rw
          (
            moved (point_x i) x (omega arith) p,
            moved (point_y i) y high q,
            read_points-line_params n (i + 1) (point_x i) (point_y i) rest (omega arith) high,
          )
          refl

    pub read_ring-ring_params :
        (x y : ℕ) (rest : List ℕ)
        → x < 2 ^ 32
        → y < 2 ^ 32
        → read_ring x y (ring_params x y ++ rest)
          ≡ some (
            points (suc (feat.num_points - 1)) 0,
            (end_cursor (suc (feat.num_points - 1)) 0 x y).0,
            (end_cursor (suc (feat.num_points - 1)) 0 x y).1,
            rest,
          )
    unfolding read_ring ring_params ring_from line_count close_path points end_cursor read_points
    read_ring-ring_params x y rest p q =
        let high = get_or-lt feat.polygon_y 0 ok.y_bits in
        rw
          (
            append_assoc (line_params (feat.num_points - 1) 1 (point_x 0) (point_y 0)) (15 ∷ [])
                rest,
            moved (point_x 0) x (omega arith) p,
            moved (point_y 0) y high q,
            kind,
            count,
            read_points-line_params (feat.num_points - 1) 1 (point_x 0) (point_y 0) (15 ∷ rest)
                (omega arith) high,
          )
          refl
      where
        kind : (2 + (feat.num_points - 1) * 8) % 8 ≡ 2
        kind = omega arith

        count : (2 + (feat.num_points - 1) * 8) / 8 ≡ feat.num_points - 1
        count = omega arith
