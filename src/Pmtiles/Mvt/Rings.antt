-- ===== src/Pmtiles/Mvt/Rings.antt =====
-- The rings of a feature, as `MvtLayer::encode` of crates/raster-h3-core/src/pmtiles/mvt.rs writes
-- them: the polygon, and its copy on the other side of the seam where there is one.
use raster_h.Common.{
  ℕ, zero, suc, ◌+◌, ◌-◌, ◌^◌, ◌≤◌, ◌<◌, ◌≡◌, refl, ap, ap₂, sym, subst, ◌∙◌, true, some, List, [],
  ◌∷◌, ◌++◌, append-nil, length, All, All-append, leb, ◌==◌, if◌then◌else◌, arith, Bool-cases, inl,
  inr,
}
use raster_h.Pmtiles.Mvt.Encode.{geom_bytes}
use raster_h.Pmtiles.Mvt.Geometry.{
  IsPolygon, point_x, point_y, points, ring_params, ring-varints, ring_params-IsU64, end_cursor,
  end_cursor-point, read_ring-ring_params, get_or-lt,
}
use raster_h.Pmtiles.Mvt.Layer.{MvtFeature}
use raster_h.Pmtiles.Mvt.Packed.{read_packed-varints, IsU64, varints, varints-append}
use raster_h.Pmtiles.Mvt.Reader.{read_geometry, read_ring, read_rings}

-- Fewer than three points make no ring.
unfoldable pub rings : MvtFeature → List (List (ℕ × ℕ))
rings feat =
    if leb 3 feat.num_points
    then if feat.wrapped_x_offset == 0
      then points feat 0 feat.num_points 0 ∷ []
      else points feat 0 feat.num_points 0
        ∷ points feat feat.wrapped_x_offset feat.num_points 0
        ∷ []
    else []

read_rings-step :
    (fuel x y : ℕ) (params : List ℕ) (ps : List (ℕ × ℕ)) (u v : ℕ) (rest : List ℕ)
    (behind : List (List (ℕ × ℕ)))
    → ((c : ℕ) × (more : List ℕ) × (params ≡ c ∷ more))
    → read_ring x y params ≡ some (ps, u, v, rest)
    → read_rings fuel u v rest ≡ some behind
    → read_rings (suc fuel) x y params ≡ some (ps ∷ behind)
unfolding read_rings
read_rings-step fuel x y [] ps u v rest behind (c, more, e) h k = cc
read_rings-step fuel x y (c ∷ params) ps u v rest behind shape h k = rw (read_rings, h, k) refl

module _ (feat : MvtFeature) where
  abbrev last : ℕ
  last = feat.num_points - 1

  abbrev second_params : List ℕ
  second_params = ring_params feat feat.wrapped_x_offset (point_x feat 0 last) (point_y feat 0 last)

  -- The numbers that the geometry is written as.
  unfoldable pub geom_params : List ℕ
  geom_params =
      if leb 3 feat.num_points
      then if feat.wrapped_x_offset == 0
        then ring_params feat 0 0 0
        else ring_params feat 0 0 0 ++ second_params
      else []

  pub geom_bytes-varints : geom_bytes feat ≡ varints geom_params
  unfolding geom_bytes geom_params
  geom_bytes-varints = elim (Bool-cases (leb 3 feat.num_points)) [
    | inr few ↦ rw few refl
    | inl enough ↦ rw enough (elim (Bool-cases (feat.wrapped_x_offset == 0)) [
      | inl none_wrapped ↦ rw none_wrapped (ring-varints feat 0 0 0)
      | inr wrapped ↦
          rw
            (
              wrapped,
              ring-varints feat 0 0 0,
              ring-varints feat feat.wrapped_x_offset (point_x feat 0 last) (point_y feat 0 last),
            )
            (sym (varints-append (ring_params feat 0 0 0) second_params))
    ])
  ]

  pub geom_params-IsU64 : IsPolygon feat → All IsU64 geom_params
  unfolding geom_params
  geom_params-IsU64 ok = elim (Bool-cases (leb 3 feat.num_points)) [
    | inr few ↦ rw few tt
    | inl enough ↦ rw enough (elim (Bool-cases (feat.wrapped_x_offset == 0)) [
      | inl none_wrapped ↦ rw none_wrapped (ring_params-IsU64 feat 0 ok 0 0)
      | inr wrapped ↦ rw wrapped (
          All-append IsU64 (ring_params feat 0 0 0) second_params (ring_params-IsU64 feat 0 ok 0 0)
            (ring_params-IsU64 feat feat.wrapped_x_offset ok (point_x feat 0 last)
              (point_y feat 0 last)))
    ])
  ]

  -- One ring, and the rings behind it.
  read_rings-ring :
      (offset fuel x y : ℕ) (more : List ℕ) (behind : List (List (ℕ × ℕ)))
      → IsPolygon feat
      → leb 3 feat.num_points ≡ true
      → x < 2 ^ 32
      → y < 2 ^ 32
      → read_rings fuel (point_x feat offset last) (point_y feat offset last) more ≡ some behind
      → read_rings (suc fuel) x y (ring_params feat offset x y ++ more)
        ≡ some (points feat offset feat.num_points 0 ∷ behind)
  unfolding ring_params
  read_rings-ring offset fuel x y more behind ok enough p q rest =
      read_rings-step fuel x y (ring_params feat offset x y ++ more)
        (points feat offset feat.num_points 0) (point_x feat offset last) (point_y feat offset last)
        more behind (_, _, refl)
        (read_ring-ring_params feat offset ok x y more p q
          ∙ ap₂ (λ n c. some (points feat offset n 0, c.0, c.1, more)) count cursor)
        rest
    where
      count : suc last ≡ feat.num_points
      count = ground (arith, enough)

      cursor :
          end_cursor feat offset (suc last) 0 x y
          ≡ (point_x feat offset last, point_y feat offset last)
      cursor =
          end_cursor-point feat offset last 0 x y
          ∙ ap (λ j. (point_x feat offset j, point_y feat offset j))
              (let e : 0 + last ≡ last = omega arith in e)

  read_rings-geom_params :
      (fuel : ℕ) → IsPolygon feat → 2 ≤ fuel → read_rings fuel 0 0 geom_params ≡ some (rings feat)
  unfolding geom_params rings
  read_rings-geom_params zero ok enough = absurd (omega arith)
  read_rings-geom_params (suc zero) ok enough = absurd (omega arith)
  read_rings-geom_params (suc (suc fuel)) ok _ = elim (Bool-cases (leb 3 feat.num_points)) [
    | inr few ↦ rw few (unfold read_rings in refl)
    | inl enough ↦ rw enough (elim (Bool-cases (feat.wrapped_x_offset == 0)) [
      | inl none_wrapped ↦ rw none_wrapped (
          subst
            (λ t. read_rings (suc (suc fuel)) 0 0 t ≡ some (points feat 0 feat.num_points 0 ∷ []))
            (append-nil (ring_params feat 0 0 0))
            (read_rings-ring 0 (suc fuel) 0 0 [] [] ok enough (omega arith) (omega arith)
              (unfold read_rings in refl)))
      | inr wrapped ↦ rw wrapped (
          read_rings-ring 0 (suc fuel) 0 0 second_params _ ok enough (omega arith) (omega arith) (
            subst
              (λ t.
                read_rings (suc fuel) (point_x feat 0 last) (point_y feat 0 last) t
                ≡ some (points feat feat.wrapped_x_offset feat.num_points 0 ∷ []))
              (append-nil second_params)
              (read_rings-ring feat.wrapped_x_offset fuel (point_x feat 0 last)
                (point_y feat 0 last) [] [] ok enough (omega arith)
                (get_or-lt feat.polygon_y last ok.y_bits) (unfold read_rings in refl))))
    ])
  ]

  length-geom_params : leb 3 feat.num_points ≡ true → 2 ≤ length geom_params
  unfolding geom_params ring_params
  length-geom_params enough = rw enough (elim (Bool-cases (feat.wrapped_x_offset == 0)) [
    | inl none_wrapped ↦ rw none_wrapped (omega arith)
    | inr wrapped ↦ rw wrapped (omega arith)
  ])

  pub read_rings-rings :
      IsPolygon feat → read_rings (length geom_params) 0 0 geom_params ≡ some (rings feat)
  read_rings-rings ok = elim (Bool-cases (leb 3 feat.num_points)) [
    | inr few ↦ unfold geom_params in unfold rings in rw few (unfold read_rings in refl)
    | inl enough ↦ read_rings-geom_params (length geom_params) ok (length-geom_params enough)
  ]

  -- The geometry that is written for a feature is read back as its rings: none for fewer than three
  -- points, else the polygon, and behind it the polygon moved by the offset unless that is 0. The
  -- coordinates are any i32 values; differences and sums may wrap.
  pub read_geometry-geom_bytes :
      IsPolygon feat → read_geometry (geom_bytes feat) ≡ some (rings feat)
  unfolding read_geometry
  read_geometry-geom_bytes ok =
      rw (geom_bytes-varints, read_packed-varints geom_params (geom_params-IsU64 ok))
        (read_rings-rings ok)
