-- ===== src/Pmtiles/Writer/Spill.antt =====
-- What the spill file holds: the tiles of a writer, in the order in which they came, and what
-- `add_compressed_tile` of crates/raster-h3-core/src/pmtiles/writer.rs does to them.
use raster_h.Pmtiles.Writer.{SpillTileEntry, PmtilesWriter, Bbox, new_in, add_compressed_tile}
use raster_h.Pmtiles.Hilbert.{zxy_to_tile_id}
use raster_h.Common.{
  ℕ, ◌+◌, ◌%◌, ◌^◌, ◌≤◌, ◌<◌, ◌≡◌, refl, ap, ap₂, ◌∙◌, List, [], ◌∷◌, ◌++◌, map, length, take, drop,
  take_all, drop-append, take-drop-append, length-append, All, All-append, arith,
}

abbrev pub Tile : Type 0
Tile = ℕ × List ℕ

abbrev pub contents : List ℕ → SpillTileEntry → Tile
contents spill e = (e.tile_id, take e.length (drop e.spill_offset spill))

abbrev pub tiles_of : {F : Type 0} → PmtilesWriter F → List Tile
tiles_of w = map (contents w.spill_file) w.entries

abbrev pub IsIn : List ℕ → SpillTileEntry → Type 0
IsIn spill e = (e.spill_offset + e.length ≤ length spill) × (e.length < 2 ^ 32)

-- Every entry lies in the spill file, whose end is where the next tile goes.
abbrev pub IsSpilled : {F : Type 0} → PmtilesWriter F → Type 0
IsSpilled w = (w.current_spill_offset ≡ length w.spill_file) × All (IsIn w.spill_file) w.entries

All-IsIn-append :
    (spill more : List ℕ) (es : List SpillTileEntry)
    → All (IsIn spill) es
    → All (IsIn (spill ++ more)) es
All-IsIn-append spill more [] h = tt
All-IsIn-append spill more (e ∷ es) h =
    ((omega (arith, length-append spill more), h.0.1), All-IsIn-append spill more es h.1)

map-contents-append :
    (spill more : List ℕ) (es : List SpillTileEntry)
    → All (IsIn spill) es
    → map (contents (spill ++ more)) es ≡ map (contents spill) es
map-contents-append spill more [] h = refl
map-contents-append spill more (e ∷ es) h =
    ap₂ (λ b ts. (let t : Tile = (e.tile_id, b) in t) ∷ ts)
      (take-drop-append e.length e.spill_offset spill more h.0.0)
      (map-contents-append spill more es h.1)

map-append {ℓ κ} :
    {A : Type ℓ} {B : Type κ} (f : A → B) (xs ys : List A) → map f (xs ++ ys) ≡ map f xs ++ map f ys
map-append f [] ys = refl
map-append f (x ∷ xs) ys = ap (λ t. f x ∷ t) (map-append f xs ys)

last_slice :
    (spill bytes : List ℕ) (o n : ℕ)
    → o ≡ length spill
    → n ≡ length bytes
    → take n (drop o (spill ++ bytes)) ≡ bytes
last_slice spill bytes o n at long =
    ap (λ k. take n (drop k (spill ++ bytes))) (let e : o ≡ length spill + 0 = omega arith in e)
    ∙ ap (take n) (drop-append 0 spill bytes)
    ∙ take_all n bytes (omega arith)

-- A new writer has no tile.
pub new_in-IsSpilled :
    {F : Type 0} (min_zoom max_zoom : ℕ) (bbox : Bbox F) (json : List ℕ)
    → IsSpilled (new_in min_zoom max_zoom bbox json)
unfolding new_in
new_in-IsSpilled min_zoom max_zoom bbox json = (refl, tt)

-- With the spill file in order, adding a tile of fewer than 2^32 bytes puts it after the tiles there, under the id of its
-- coordinates, and changes none of them; the spill file stays in order.
pub add_compressed_tile-tiles_of :
    {F : Type 0} (w : PmtilesWriter F) (z x y : ℕ) (bytes : List ℕ)
    → IsSpilled w
    → length bytes < 2 ^ 32
    → IsSpilled (add_compressed_tile w z x y bytes)
      × (tiles_of (add_compressed_tile w z x y bytes)
          ≡ tiles_of w ++ ((zxy_to_tile_id z x y, bytes) ∷ []))
unfolding add_compressed_tile
add_compressed_tile-tiles_of w z x y bytes (at, inside) short =
    let long : length bytes % 2 ^ 32 ≡ length bytes = omega arith in
    let grown : length (w.spill_file ++ bytes) ≡ length w.spill_file + length bytes =
      length-append w.spill_file bytes in
    (
      (
        omega (arith, at, long, grown),
        All-append (IsIn (w.spill_file ++ bytes)) w.entries _
            (All-IsIn-append w.spill_file bytes w.entries inside)
            ((omega (arith, at, long, grown), omega (arith, long)), tt),
      ),
      map-append (contents (w.spill_file ++ bytes)) w.entries _
          ∙ ap₂ (λ a b. a ++ (let t : Tile = (zxy_to_tile_id z x y, b) in t) ∷ [])
              (map-contents-append w.spill_file bytes w.entries inside)
              (last_slice w.spill_file bytes w.current_spill_offset (length bytes % 2 ^ 32) at
                long),
    )
