-- ===== src/Pmtiles/Mvt/Reader.antt =====
-- A reader of vector tiles, written from the format's description: what
-- crates/raster-h3-core/src/pmtiles/mvt.rs encodes is read with it. A coordinate is the 32 bits of an
-- i32.
use raster_h.Common.{
  ℕ, zero, suc, ◌+◌, ◌-◌, ◌/◌, ◌%◌, ◌^◌, Option, none, some, List, [], ◌∷◌, length, get_elem?, ◌==◌,
  if◌then◌else◌,
}
use raster_h.Pmtiles.Mvt.Decoded.{Decoded, read_value}
use raster_h.Pmtiles.Mvt.Message.{
  Field, varint_field, fixed64_field, bytes_field, fixed32_field, read_message,
}
use raster_h.Pmtiles.Varint.{read_varint}

pub record FeatureView : Type 0 where
  pub id : ℕ
  pub properties : List (List ℕ × Decoded)
  pub rings : List (List (ℕ × ℕ))

pub record LayerView : Type 0 where
  pub name : List ℕ
  pub extent : ℕ
  pub features : List FeatureView

infixl 5 ◌>>=◌
abbrev pub ◌>>=◌ {ℓ κ} : {A : Type ℓ} {B : Type κ} → Option A → (A → Option B) → Option B
none >>= f = none
some a >>= f = f a

-- The byte fields of a number, in their order.
unfoldable pub bytes_of : ℕ → List Field → List (List ℕ)
bytes_of n [] = []
bytes_of n (varint_field m v ∷ fs) = bytes_of n fs
bytes_of n (fixed64_field m v ∷ fs) = bytes_of n fs
bytes_of n (bytes_field m bs ∷ fs) = let rest = bytes_of n fs in if m == n then bs ∷ rest else rest
bytes_of n (fixed32_field m v ∷ fs) = bytes_of n fs

-- The varints of a number, in their order.
unfoldable pub varints_of : ℕ → List Field → List ℕ
varints_of n [] = []
varints_of n (varint_field m v ∷ fs) =
    let rest = varints_of n fs in if m == n then v ∷ rest else rest
varints_of n (fixed64_field m v ∷ fs) = varints_of n fs
varints_of n (bytes_field m bs ∷ fs) = varints_of n fs
varints_of n (fixed32_field m v ∷ fs) = varints_of n fs

abbrev pub head_or {ℓ} : {A : Type ℓ} → A → List A → A
head_or d [] = d
head_or d (x ∷ xs) = x

-- A packed list of varints.
unfoldable pub read_varints : ℕ → List ℕ → Option (List ℕ)
read_varints fuel [] = some []
read_varints zero (b ∷ bs) = none
read_varints (suc fuel) (b ∷ bs) = do
  (v, rest) ← read_varint (b ∷ bs)
  vs ← read_varints fuel rest
  some (v ∷ vs)

abbrev pub read_packed : List ℕ → Option (List ℕ)
read_packed bs = read_varints (length bs) bs

-- The properties that pairs of indices name.
unfoldable pub resolve : List (List ℕ) → List Decoded → List ℕ → Option (List (List ℕ × Decoded))
resolve keys values [] = some []
resolve keys values (i ∷ []) = none
resolve keys values (i ∷ j ∷ idxs) = do
  k ← get_elem? keys i
  v ← get_elem? values j
  props ← resolve keys values idxs
  some ((k, v) ∷ props)

unfoldable pub zigzag_decode : ℕ → ℕ
zigzag_decode z = if z % 2 == 0 then z / 2 else 2 ^ 32 - 1 - z / 2

-- `n` points behind the cursor, with the cursor at the last and the parameters that are left.
unfoldable pub read_points : ℕ → ℕ → ℕ → List ℕ → Option (List (ℕ × ℕ) × ℕ × ℕ × List ℕ)
unfolding zigzag_decode
read_points zero x y params = some ([], x, y, params)
read_points (suc n) x y [] = none
read_points (suc n) x y (dx ∷ []) = none
read_points (suc n) x y (dx ∷ dy ∷ params) =
    let px = (x + zigzag_decode dx) % 2 ^ 32 in
    let py = (y + zigzag_decode dy) % 2 ^ 32 in
    do
      (points, last_x, last_y, rest) ← read_points n px py params
      some ((px, py) ∷ points, last_x, last_y, rest)

unfoldable pub close_path : List ℕ → Option (List ℕ)
close_path [] = none
close_path (c ∷ params) = if c == 15 then some params else none

unfoldable pub line_count : List ℕ → Option (ℕ × List ℕ)
line_count [] = none
line_count (c ∷ params) = if c % 8 == 2 then some (c / 8, params) else none

unfoldable pub ring_from : ℕ → ℕ → List ℕ → Option (List (ℕ × ℕ) × ℕ × ℕ × List ℕ)
unfolding close_path line_count read_points
ring_from x y params = do
  (first, first_x, first_y, more) ← read_points 1 x y params
  (n, behind) ← line_count more
  (points, last_x, last_y, closing) ← read_points n first_x first_y behind
  rest ← close_path closing
  some (head_or (0, 0) first ∷ points, last_x, last_y, rest)

-- A ring: MoveTo with one point, LineTo with the others, ClosePath.
unfoldable pub read_ring : ℕ → ℕ → List ℕ → Option (List (ℕ × ℕ) × ℕ × ℕ × List ℕ)
unfolding ring_from
read_ring x y [] = none
read_ring x y (c ∷ params) = if c == 9 then ring_from x y params else none

unfoldable pub read_rings : ℕ → ℕ → ℕ → List ℕ → Option (List (List (ℕ × ℕ)))
unfolding read_ring
read_rings fuel x y [] = some []
read_rings zero x y (c ∷ params) = none
read_rings (suc fuel) x y (c ∷ params) = do
  (points, last_x, last_y, rest) ← read_ring x y (c ∷ params)
  rings ← read_rings fuel last_x last_y rest
  some (points ∷ rings)

unfoldable pub read_geometry : List ℕ → Option (List (List (ℕ × ℕ)))
unfolding read_rings
read_geometry bytes = do params ← read_packed bytes; read_rings (length params) 0 0 params

unfoldable pub read_feature : List (List ℕ) → List Decoded → List ℕ → Option FeatureView
unfolding bytes_of varints_of read_rings resolve
read_feature keys values bytes = do
  fields ← read_message bytes
  idxs ← read_packed (head_or [] (bytes_of 2 fields))
  props ← resolve keys values idxs
  params ← read_packed (head_or [] (bytes_of 4 fields))
  rings ← read_rings (length params) 0 0 params
  if head_or 0 (varints_of 3 fields) == 3
      then some (record { id = head_or 0 (varints_of 1 fields); properties = props; rings = rings })
      else none

abbrev pub traverse {ℓ κ} : {A : Type ℓ} {B : Type κ} → (A → Option B) → List A → Option (List B)
traverse f [] = some []
traverse f (x ∷ xs) = do y ← f x; ys ← traverse f xs; some (y ∷ ys)

-- A layer of version 2.
unfoldable pub read_layer : List ℕ → Option LayerView
unfolding bytes_of varints_of read_feature
read_layer bytes = do
  fields ← read_message bytes
  values ← traverse read_value (bytes_of 4 fields)
  features ← traverse (read_feature (bytes_of 3 fields) values) (bytes_of 2 fields)
  if head_or 0 (varints_of 15 fields) == 2
      then some (record {
        name = head_or [] (bytes_of 1 fields);
        extent = head_or 4096 (varints_of 5 fields);
        features = features;
      })
      else none

-- The layers of a tile.
unfoldable pub read_tile : List ℕ → Option (List LayerView)
unfolding bytes_of read_layer
read_tile bytes = do fields ← read_message bytes; traverse read_layer (bytes_of 3 fields)
