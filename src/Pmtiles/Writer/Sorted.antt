-- ===== src/Pmtiles/Writer/Sorted.antt =====
-- The tiles and the directory in the order of the ids: `sort_by_key`, the loop that makes the
-- entries and the loop that copies the tiles, in `finish_into` of
-- crates/raster-h3-core/src/pmtiles/writer.rs.
use raster_h.Pmtiles.Writer.{
  SpillTileEntry, PmtilesWriter, insert_by_key, sort_by_key, sorted_entries, directory_entries,
  end_offset, stream_tiles, tile_data,
}
use raster_h.Pmtiles.Writer.Spill.{Tile, contents, tiles_of, IsIn, IsSpilled}
use raster_h.Pmtiles.Directory.{Entry}
use raster_h.Common.{
  ℕ, ◌+◌, ◌≤◌, ◌≡◌, refl, sym, ap, ap₂, ◌∙◌, List, [], ◌∷◌, ◌++◌, append_assoc, map, length, take,
  drop, take-append, drop-append, length-append, length-take, length-drop, ltb, leb, le→ltb, leb→le,
  All, ok, Bool-cases, inl, inr, arith,
}

abbrev pub tile_key : Tile → ℕ
tile_key t = t.0

-- The bytes of the tiles, one after the other.
abbrev pub concat_tiles : List Tile → List ℕ
concat_tiles [] = []
concat_tiles (t ∷ ts) = t.1 ++ concat_tiles ts

abbrev pub sorted_tiles : List Tile → List Tile
sorted_tiles = sort_by_key tile_key

-- What a reader of the archive gets for an entry of its directory.
abbrev pub tile_at : List ℕ → Entry → Tile
tile_at tiles e = (e.tile_id, take e.length (drop e.offset tiles))

module _ {A B : Type 0} (key : A → ℕ) (key' : B → ℕ) (f : A → B)
    (same : (a : A) → key' (f a) ≡ key a) where
  insert-map :
      (a : A) (bs : List A) → map f (insert_by_key key a bs) ≡ insert_by_key key' (f a) (map f bs)
  unfolding insert_by_key
  insert-map a [] = refl
  insert-map a (b ∷ bs) = elim (Bool-cases (leb (key a) (key b))) [
    | inl first ↦ rw (same a, same b, first) refl
    | inr later ↦ rw (same a, same b, later) (ap (λ t. f b ∷ t) (insert-map a bs))
  ]

  sort-map : (bs : List A) → map f (sort_by_key key bs) ≡ sort_by_key key' (map f bs)
  unfolding sort_by_key
  sort-map [] = refl
  sort-map (b ∷ bs) =
      insert-map b (sort_by_key key bs) ∙ ap (insert_by_key key' (f b)) (sort-map bs)

module _ {A : Type 0} (key : A → ℕ) (P : A → Type 0) where
  insert-All : (a : A) (bs : List A) → P a → All P bs → All P (insert_by_key key a bs)
  unfolding insert_by_key
  insert-All a [] p h = (p, tt)
  insert-All a (b ∷ bs) p h = elim (Bool-cases (leb (key a) (key b))) [
    | inl first ↦ rw first (p, h)
    | inr later ↦ rw later (h.0, insert-All a bs p h.1)
  ]

  pub sort-All : (bs : List A) → All P bs → All P (sort_by_key key bs)
  unfolding sort_by_key
  sort-All [] h = tt
  sort-All (b ∷ bs) h = insert-All b (sort_by_key key bs) h.0 (sort-All bs h.1)

-- No key below `last`, and none below the one before it.
abbrev pub IsSorted : ℕ → List SpillTileEntry → Type 0
IsSorted last [] = Unit {0}
IsSorted last (e ∷ es) = (last ≤ e.tile_id) × IsSorted e.tile_id es

insert-IsSorted :
    (last : ℕ) (a : SpillTileEntry) (es : List SpillTileEntry)
    → last ≤ a.tile_id
    → IsSorted last es
    → IsSorted last (insert_by_key (λ e. e.tile_id) a es)
unfolding insert_by_key
insert-IsSorted last a [] le h = (le, tt)
insert-IsSorted last a (e ∷ es) le h = elim (Bool-cases (leb a.tile_id e.tile_id)) [
  | inl first ↦ rw first (le, (leb→le a.tile_id e.tile_id first, h.1))
  | inr later ↦ rw later (h.0, insert-IsSorted e.tile_id a es (ground (arith, later)) h.1)
]

pub sort-IsSorted : (es : List SpillTileEntry) → IsSorted 0 (sorted_entries es)
unfolding sort_by_key
sort-IsSorted [] = tt
sort-IsSorted (e ∷ es) =
    insert-IsSorted 0 e (sort_by_key (λ e. e.tile_id) es) (omega arith) (sort-IsSorted es)

pub sorted-tiles :
    (spill : List ℕ) (es : List SpillTileEntry)
    → map (contents spill) (sorted_entries es) ≡ sorted_tiles (map (contents spill) es)
sorted-tiles spill es = sort-map (λ e. e.tile_id) tile_key (contents spill) (λ e. refl) es

stream_tiles-concat :
    (spill : List ℕ) (es : List SpillTileEntry)
    → All (IsIn spill) es
    → stream_tiles spill es ≡ ok (concat_tiles (map (contents spill) es))
unfolding stream_tiles
stream_tiles-concat spill [] h = refl
stream_tiles-concat spill (e ∷ es) h =
    rw (le→ltb (length spill) (e.spill_offset + e.length) h.0.0, stream_tiles-concat spill es h.1)
      refl

length-contents :
    (spill : List ℕ) (e : SpillTileEntry)
    → IsIn spill e
    → length (take e.length (drop e.spill_offset spill)) ≡ e.length
length-contents spill e h =
    omega (
      arith,
      h.0,
      length-take e.length (drop e.spill_offset spill),
      length-drop e.spill_offset spill,
    )

no_bytes :
    (spill : List ℕ) (es : List SpillTileEntry)
    → length spill ≡ 0
    → All (IsIn spill) es
    → concat_tiles (map (contents spill) es) ≡ []
no_bytes spill [] empty h = refl
no_bytes spill (e ∷ es) empty h =
    ap₂ (λ a b. a ++ b)
      (empty_list (take e.length (drop e.spill_offset spill))
        (omega (arith, empty, h.0.0, length-contents spill e h.0)))
      (no_bytes spill es empty h.1)
  where
    empty_list : (xs : List ℕ) → length xs ≡ 0 → xs ≡ []
    empty_list [] e = refl
    empty_list (x ∷ xs) e = absurd (omega arith)

-- With the spill file in order, the tile section of a finished archive is what was added, sorted by the ids: the copy never
-- finds the spill file too short.
pub tile_data-tiles_of :
    {F : Type 0} (w : PmtilesWriter F)
    → IsSpilled w
    → tile_data w ≡ ok (concat_tiles (sorted_tiles (tiles_of w)))
unfolding tile_data
tile_data-tiles_of w (at, inside) =
    let sorted_inside : All (IsIn w.spill_file) (sorted_entries w.entries) =
      sort-All (λ e. e.tile_id) (IsIn w.spill_file) w.entries inside in
    elim (Bool-cases (ltb 0 w.current_spill_offset)) [
      | inl mapped ↦ rw mapped (
          stream_tiles-concat w.spill_file (sorted_entries w.entries) sorted_inside
          ∙ ap (λ ts. ok (concat_tiles ts)) (sorted-tiles w.spill_file w.entries))
      | inr unmapped ↦ rw unmapped (
          ap ok (
            sym (
              no_bytes w.spill_file (sorted_entries w.entries) (ground (arith, at, unmapped))
                sorted_inside)
            ∙ ap concat_tiles (sorted-tiles w.spill_file w.entries)))
    ]

directory-reads :
    (spill before : List ℕ) (o : ℕ) (es : List SpillTileEntry)
    → o ≡ length before
    → All (IsIn spill) es
    → map (tile_at (before ++ concat_tiles (map (contents spill) es))) (directory_entries o es)
      ≡ map (contents spill) es
unfolding directory_entries
directory-reads spill before o [] at h = refl
directory-reads spill before o (e ∷ es) at h =
    let tile = take e.length (drop e.spill_offset spill) in
    let rest = concat_tiles (map (contents spill) es) in
    let long : length tile ≡ e.length = length-contents spill e h.0 in
    ap₂ (λ b ts. (let t : Tile = (e.tile_id, b) in t) ∷ ts)
      (ap₂ (λ n k. take n (drop k (before ++ (tile ++ rest)))) (sym long)
          (let z : o ≡ length before + 0 = omega arith in z)
        ∙ ap (take (length tile)) (drop-append 0 before (tile ++ rest))
        ∙ take-append tile rest)
      (ap (λ bytes. map (tile_at bytes) (directory_entries (o + e.length) es))
          (sym (append_assoc before tile rest))
        ∙ directory-reads spill (before ++ tile) (o + e.length) es
            (omega (arith, at, long, length-append before tile)) h.1)

-- With the spill file in order, each entry of the directory is the id of a tile that was added, and places its bytes in the tile
-- section: read through the directory, the section gives the tiles that were added, sorted.
pub directory_entries-tiles_of :
    {F : Type 0} (w : PmtilesWriter F)
    → IsSpilled w
    → map
        (tile_at (concat_tiles (sorted_tiles (tiles_of w))))
        (directory_entries 0 (sorted_entries w.entries))
      ≡ sorted_tiles (tiles_of w)
directory_entries-tiles_of w (at, inside) =
    let es = sorted_entries w.entries in
    ap (λ ts. map (tile_at (concat_tiles ts)) (directory_entries 0 es))
      (sym (sorted-tiles w.spill_file w.entries))
    ∙ directory-reads w.spill_file [] 0 es refl
        (sort-All (λ e. e.tile_id) (IsIn w.spill_file) w.entries inside)
    ∙ sorted-tiles w.spill_file w.entries

end_offset-concat :
    (spill : List ℕ) (o : ℕ) (es : List SpillTileEntry)
    → All (IsIn spill) es
    → end_offset o es ≡ o + length (concat_tiles (map (contents spill) es))
unfolding end_offset
end_offset-concat spill o [] h = omega arith
end_offset-concat spill o (e ∷ es) h = omega (
  arith,
  end_offset-concat spill (o + e.length) es h.1,
  length-contents spill e h.0,
  length-append (take e.length (drop e.spill_offset spill))
      (concat_tiles (map (contents spill) es)),
)

-- `tile_data_length`
pub end_offset-tiles_of :
    {F : Type 0} (w : PmtilesWriter F)
    → IsSpilled w
    → end_offset 0 (sorted_entries w.entries) ≡ length (concat_tiles (sorted_tiles (tiles_of w)))
end_offset-tiles_of w (at, inside) =
    end_offset-concat w.spill_file 0 (sorted_entries w.entries)
      (sort-All (λ e. e.tile_id) (IsIn w.spill_file) w.entries inside)
    ∙ ap (λ ts. 0 + length (concat_tiles ts)) (sorted-tiles w.spill_file w.entries)
    ∙ (let z : 0 + length (concat_tiles (sorted_tiles (tiles_of w)))
            ≡ length (concat_tiles (sorted_tiles (tiles_of w))) =
          omega arith in
        z)
