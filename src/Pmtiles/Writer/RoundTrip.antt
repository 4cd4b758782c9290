-- ===== src/Pmtiles/Writer/RoundTrip.antt =====
-- A reader of archives with one directory, written from the format's description, on what
-- `finish_into` of crates/raster-h3-core/src/pmtiles/writer.rs writes; and the errors of
-- `finish_into`.
use raster_h.Pmtiles.Writer.{
  F64, SpillTileEntry, PmtilesWriter, insert_by_key, sort_by_key, sorted_entries, directory_entries,
  end_offset, directories, finish_into, max_entries_per_leaf,
}
use raster_h.Pmtiles.Writer.Spill.{Tile, tiles_of, contents, IsIn, IsSpilled}
use raster_h.Pmtiles.Writer.Sorted.{
  concat_tiles, sorted_tiles, tile_at, sort-All, IsSorted, sort-IsSorted,
  directory_entries-tiles_of, end_offset-tiles_of, tile_data-tiles_of,
}
use raster_h.Pmtiles.Writer.Archive.{section_of, finish_into-sections}
use raster_h.Pmtiles.Directory.{
  Entry, uncompressed, encode_directory, write_leaves, build_leaf_directories,
}
use raster_h.Pmtiles.Directory.Decode.{read_directory, read_directory-uncompressed, IsOrdered}
use raster_h.Common.{
  ℕ, suc, ◌+◌, ◌^◌, ◌≤◌, ◌<◌, ◌≡◌, inl, inr, refl, sym, ap, ◌∙◌, true, Option, none, some, List, [],
  ◌∷◌, append-nil, map, length, leb, if◌then◌else◌, Bool-cases, All, Result, RasterH3Error, ok, err,
  ◌>>=◌, >>=-eq-err, arith,
}

-- The tiles of an archive: the root directory, decompressed, and the bytes that each entry places.
unfoldable pub read_tiles : (List ℕ → Option (List ℕ)) → List ℕ → Option (List Tile)
read_tiles gunzip a = elim (gunzip (section_of 0 a)) [
  | none ↦ none
  | some bytes ↦ elim (read_directory bytes) [
    | none ↦ none
    | some (entries, rest) ↦ some (map (tile_at (section_of 3 a)) entries)
  ]
]

read_tiles-parts :
    (gunzip : List ℕ → Option (List ℕ)) (a root bytes tiles rest : List ℕ) (entries : List Entry)
    → section_of 0 a ≡ root
    → gunzip root ≡ some bytes
    → read_directory bytes ≡ some (entries, rest)
    → section_of 3 a ≡ tiles
    → read_tiles gunzip a ≡ some (map (tile_at tiles) entries)
unfolding read_tiles
read_tiles-parts gunzip a root bytes tiles rest entries s₀ e d s₃ =
    let plain : gunzip (section_of 0 a) ≡ some bytes = ap gunzip s₀ ∙ e in
    rw (plain, read_tiles, d) (ap (λ t. some (map (tile_at t) entries)) s₃)

abbrev pub HasU64Id : Tile → Type 0
HasU64Id t = t.0 < 2 ^ 64

abbrev FitsId : SpillTileEntry → Type 0
FitsId e = e.tile_id < 2 ^ 64

FitsId-tiles :
    (spill : List ℕ) (es : List SpillTileEntry)
    → All HasU64Id (map (contents spill) es)
    → All FitsId es
FitsId-tiles spill [] h = tt
FitsId-tiles spill (e ∷ es) h = (h.0, FitsId-tiles spill es h.1)

end_offset-le : (o : ℕ) (es : List SpillTileEntry) → o ≤ end_offset o es
unfolding end_offset
end_offset-le o [] = omega arith
end_offset-le o (e ∷ es) = omega (arith, end_offset-le (o + e.length) es)

directory_entries-IsOrdered :
    (spill : List ℕ) (last o : ℕ) (es : List SpillTileEntry)
    → IsSorted last es
    → All (IsIn spill) es
    → All FitsId es
    → end_offset o es + 1 < 2 ^ 64
    → IsOrdered last (directory_entries o es)
unfolding directory_entries end_offset
directory_entries-IsOrdered spill last o [] s h i fits = tt
directory_entries-IsOrdered spill last o (e ∷ es) s h i fits = (
  s.0,
  (
    i.0,
    (let low : o + 1 < 2 ^ 64 = omega (arith, end_offset-le (o + e.length) es) in low),
    h.0.1,
    (let one : 1 < 2 ^ 32 = omega arith in one),
  ),
  directory_entries-IsOrdered spill e.tile_id (o + e.length) es s.1 h.1 i.1 fits,
)

length-directory_entries :
    (o : ℕ) (es : List SpillTileEntry) → length (directory_entries o es) ≡ length es
unfolding directory_entries
length-directory_entries o [] = refl
length-directory_entries o (e ∷ es) = ap suc (length-directory_entries (o + e.length) es)

length-insert :
    (a : SpillTileEntry) (es : List SpillTileEntry)
    → length (insert_by_key (λ e. e.tile_id) a es) ≡ suc (length es)
unfolding insert_by_key
length-insert a [] = refl
length-insert a (e ∷ es) = elim (Bool-cases (leb a.tile_id e.tile_id)) [
  | inl first ↦ rw first refl
  | inr later ↦ rw later (ap suc (length-insert a es))
]

length-sorted_entries : (es : List SpillTileEntry) → length (sorted_entries es) ≡ length es
unfolding sort_by_key
length-sorted_entries [] = refl
length-sorted_entries (e ∷ es) =
    length-insert e (sort_by_key (λ e. e.tile_id) es) ∙ ap suc (length-sorted_entries es)

module _ (gzip_compress : List ℕ → Result (List ℕ)) where
  -- Somewhere the compressor gives this error.
  abbrev pub Fails : RasterH3Error → Type 0
  Fails x = (bytes : List ℕ) × (gzip_compress bytes ≡ err x)

  write_leaves-err :
      (chunks : List (List Entry)) (o : ℕ) {x : RasterH3Error}
      → write_leaves gzip_compress o chunks ≡ err x
      → Fails x
  unfolding write_leaves encode_directory
  write_leaves-err [] o h = cc
  write_leaves-err (c ∷ cs) o h = elim (>>=-eq-err (gzip_compress (uncompressed c)) _ h) [
    | inl e ↦ (uncompressed c, e)
    | inr (b, e, h') ↦ elim (>>=-eq-err (write_leaves gzip_compress _ cs) _ h') [
      | inl e' ↦ write_leaves-err cs _ e'
      | inr (p, e', h'') ↦ cc
    ]
  ]

  build_leaf_directories-err :
      (es : List Entry) (n : ℕ) {x : RasterH3Error}
      → build_leaf_directories gzip_compress es n ≡ err x
      → Fails x
  unfolding build_leaf_directories encode_directory
  build_leaf_directories-err es n h = elim (>>=-eq-err (write_leaves gzip_compress 0 _) _ h) [
    | inl e ↦ write_leaves-err _ 0 e
    | inr (p, e, h') ↦ elim (>>=-eq-err (gzip_compress (uncompressed p.0)) _ h') [
      | inl e' ↦ (uncompressed p.0, e')
      | inr (r, e', h'') ↦ cc
    ]
  ]

  directories-err :
      (es : List Entry) {x : RasterH3Error} → directories gzip_compress es ≡ err x → Fails x
  unfolding directories encode_directory
  directories-err es {x = x} h =
      let leaves = build_leaf_directories gzip_compress es max_entries_per_leaf in
      elim (Bool-cases (leb (length es) max_entries_per_leaf)) [
        | inr many ↦ build_leaf_directories-err es max_entries_per_leaf (rw many at h)
        | inl few ↦
            elim (>>=-eq-err (gzip_compress (uncompressed es))
              (λ root. if leb (length root) 16257 then ok (root, []) else leaves) {x = x}
              (rw few at h)) [
                | inl e ↦ (uncompressed es, e)
                | inr (root, e, h') ↦ elim (Bool-cases (leb (length root) 16257)) [
                  | inl small ↦ cc
                  | inr large ↦ build_leaf_directories-err es max_entries_per_leaf (rw large at h')
                ]
              ]
      ]

  -- Of a writer whose spill file is in order, `finish_into` fails only with an error of the
  -- compressor: it never finds the spill file truncated.
  pub finish_into-err :
      (f : F64) (w : PmtilesWriter f.Carrier) (x : RasterH3Error)
      → IsSpilled w
      → finish_into gzip_compress f w ≡ err x
      → Fails x
  unfolding finish_into
  finish_into-err f w x spilled h =
      elim (>>=-eq-err (directories gzip_compress (directory_entries 0 (sorted_entries w.entries)))
        _ h) [
          | inl e ↦ directories-err (directory_entries 0 (sorted_entries w.entries)) e
          | inr (p, e, h') ↦ elim (>>=-eq-err (gzip_compress w.metadata_json) _ h') [
            | inl e' ↦ (w.metadata_json, e')
            | inr (meta, e', h'') ↦ (let tiles = tile_data-tiles_of w spilled in absurd cc)
          ]
        ]

  encode_directory-directories :
      (es : List Entry) (root : List ℕ)
      → length es ≤ max_entries_per_leaf
      → gzip_compress (uncompressed es) ≡ ok root
      → length root ≤ 16257
      → directories gzip_compress es ≡ ok (root, [])
  unfolding directories encode_directory
  encode_directory-directories es root few e small =
      let yes : leb (length es) max_entries_per_leaf ≡ true = ground arith in
      let fits : leb (length root) 16257 ≡ true = ground arith in rw (yes, e, ◌>>=◌, fits) refl

  -- With a decompressor that inverts the compressor: a writer whose spill file is in order, of at most
  -- 4096 tiles, whose metadata compresses and whose directory compresses to at most 16257 bytes,
  -- finishes, and a reader of the archive gets exactly the tiles
  -- that were added, with their ids and bytes, sorted by id. Ids fit a u64, and so do the sizes.
  pub read_tiles-finish_into :
      (gunzip : List ℕ → Option (List ℕ))
      → ((bytes c : List ℕ) → gzip_compress bytes ≡ ok c → gunzip c ≡ some bytes)
      → (f : F64) (w : PmtilesWriter f.Carrier) (root meta : List ℕ) → IsSpilled w
      → All HasU64Id (tiles_of w)
      → length w.entries ≤ 4096
      → gzip_compress (uncompressed (directory_entries 0 (sorted_entries w.entries))) ≡ ok root
      → length root ≤ 16257
      → gzip_compress w.metadata_json ≡ ok meta
      → 127 + length root + length meta + length (concat_tiles (sorted_tiles (tiles_of w))) < 2 ^ 64
      → (a : List ℕ) × (finish_into gzip_compress f w ≡ ok a)
        × (read_tiles gunzip a ≡ some (sorted_tiles (tiles_of w)))
  read_tiles-finish_into gunzip inverse f w root meta spilled ids few e small m fits =
      let es = sorted_entries w.entries in
      let dir = directory_entries 0 es in
      let tiles = concat_tiles (sorted_tiles (tiles_of w)) in
      let count : length dir ≤ 4096 =
        omega (arith, few, length-directory_entries 0 es, length-sorted_entries w.entries) in
      let ordered : IsOrdered 0 dir =
        directory_entries-IsOrdered w.spill_file 0 0 es (sort-IsSorted w.entries)
          (sort-All (λ e. e.tile_id) (IsIn w.spill_file) w.entries spilled.1)
          (sort-All (λ e. e.tile_id) FitsId w.entries (FitsId-tiles w.spill_file w.entries ids))
          (omega (arith, fits, end_offset-tiles_of w spilled)) in
      let opened : read_directory (uncompressed dir) ≡ some (dir, []) =
        ap read_directory (sym (append-nil (uncompressed dir)))
        ∙ read_directory-uncompressed dir [] ordered (omega (arith, count)) in
      let (a, made, s₀, s₁, s₂, s₃) =
        finish_into-sections gzip_compress f w spilled root [] meta
          (encode_directory-directories dir root count e small) m (omega (arith, fits)) in
      (
        a,
        made,
        read_tiles-parts gunzip a root (uncompressed dir) tiles [] dir s₀
              (inverse (uncompressed dir) root e) opened s₃
            ∙ ap some (directory_entries-tiles_of w spilled),
      )
