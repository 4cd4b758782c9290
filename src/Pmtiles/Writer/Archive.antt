-- ===== src/Pmtiles/Writer/Archive.antt =====
-- An archive that `finish_into` of crates/raster-h3-core/src/pmtiles/writer.rs made, as a reader
-- of the format takes it apart: the header's places of the sections, the directory, the tiles.
use raster_h.Pmtiles.Writer.{
  F64, PmtilesWriter, Layout, header, header_sections, header_counts, header_coordinates,
  sorted_entries, directory_entries, directories, finish_into,
}
use raster_h.Pmtiles.Writer.Spill.{tiles_of, IsSpilled}
use raster_h.Pmtiles.Writer.Sorted.{
  concat_tiles, sorted_tiles, tile_data-tiles_of, end_offset-tiles_of,
}
use raster_h.Common.Bytes.{from_le_bytes, from_le_bytes-u64}
use raster_h.Common.{
  ℕ, ◌+◌, ◌*◌, ◌^◌, ◌<◌, ◌≡◌, refl, sym, ap, ap₂, ◌∙◌, List, [], ◌++◌, append_assoc, append-nil,
  length, take, drop, take-append, drop-append, length-append, Result, ok, ◌>>=◌, arith,
}

-- The u64 at an offset, and the section whose offset and length are the header's k-th pair.
abbrev pub u64_at : ℕ → List ℕ → ℕ
u64_at o a = from_le_bytes (take 8 (drop o a))

abbrev pub section_of : ℕ → List ℕ → List ℕ
section_of k a = take (u64_at (16 + 16 * k) a) (drop (u64_at (8 + 16 * k) a) a)

length-header : (f : F64) (w : PmtilesWriter f.Carrier) (l : Layout) → length (header f w l) ≡ 127
unfolding header header_sections header_counts header_coordinates
length-header f w l = refl

module _ (f : F64) (w : PmtilesWriter f.Carrier) (l : Layout) (rest : List ℕ)
    (fits : 127 + l.root_dir_length + l.json_metadata_length + l.leaf_dirs_length
        + l.tile_data_length
      < 2 ^ 64) where
  root_place :
      (u64_at 8 (header f w l ++ rest) ≡ 127)
      × (u64_at 16 (header f w l ++ rest) ≡ l.root_dir_length)
  unfolding header header_sections
  root_place =
      (from_le_bytes-u64 127 (omega arith), from_le_bytes-u64 l.root_dir_length (omega arith))

  json_place :
      (u64_at 24 (header f w l ++ rest) ≡ 127 + l.root_dir_length)
      × (u64_at 32 (header f w l ++ rest) ≡ l.json_metadata_length)
  unfolding header header_sections
  json_place = (from_le_bytes-u64 _ (omega arith), from_le_bytes-u64 _ (omega arith))

  leaf_place :
      (u64_at 40 (header f w l ++ rest) ≡ 127 + l.root_dir_length + l.json_metadata_length)
      × (u64_at 48 (header f w l ++ rest) ≡ l.leaf_dirs_length)
  unfolding header header_sections
  leaf_place = (from_le_bytes-u64 _ (omega arith), from_le_bytes-u64 _ (omega arith))

  tile_place :
      (u64_at 56 (header f w l ++ rest)
        ≡ 127 + l.root_dir_length + l.json_metadata_length + l.leaf_dirs_length)
      × (u64_at 64 (header f w l ++ rest) ≡ l.tile_data_length)
  unfolding header header_sections
  tile_place = (from_le_bytes-u64 _ (omega arith), from_le_bytes-u64 _ (omega arith))

slice_between :
    (before mid after a : List ℕ) (o n : ℕ)
    → a ≡ before ++ (mid ++ after)
    → o ≡ length before
    → n ≡ length mid
    → take n (drop o a) ≡ mid
slice_between before mid after a o n here at long =
    ap (λ x. take n (drop o x)) here
    ∙ ap₂ (λ k i. take k (drop i (before ++ (mid ++ after)))) long
        (let z : o ≡ length before + 0 = omega arith in z)
    ∙ ap (take (length mid)) (drop-append 0 before (mid ++ after))
    ∙ take-append mid after

abbrev archive : (f : F64) → PmtilesWriter f.Carrier → List ℕ → List ℕ → List ℕ → List ℕ → List ℕ
archive f w root meta leaves tiles =
    header f w (record {
      root_dir_length = length root;
      json_metadata_length = length meta;
      leaf_dirs_length = length leaves;
      tile_data_length = length tiles;
    })
    ++ (root ++ (meta ++ (leaves ++ tiles)))

archive-sections :
    (f : F64) (w : PmtilesWriter f.Carrier) (root meta leaves tiles : List ℕ)
    → 127 + length root + length meta + length leaves + length tiles < 2 ^ 64
    → (section_of 0 (archive f w root meta leaves tiles) ≡ root)
      × (section_of 1 (archive f w root meta leaves tiles) ≡ meta)
      × (section_of 2 (archive f w root meta leaves tiles) ≡ leaves)
      × (section_of 3 (archive f w root meta leaves tiles) ≡ tiles)
archive-sections f w root meta leaves tiles fits =
    let l : Layout = record {
      root_dir_length = length root;
      json_metadata_length = length meta;
      leaf_dirs_length = length leaves;
      tile_data_length = length tiles;
    } in
    let h = header f w l in
    let rest = root ++ (meta ++ (leaves ++ tiles)) in
    let a = h ++ rest in
    let hl : length h ≡ 127 = length-header f w l in
    let r = root_place f w l rest fits in
    let j = json_place f w l rest fits in
    let v = leaf_place f w l rest fits in
    let t = tile_place f w l rest fits in
    let after_root : a ≡ (h ++ root) ++ (meta ++ (leaves ++ tiles)) =
      sym (append_assoc h root (meta ++ (leaves ++ tiles))) in
    let after_meta : a ≡ ((h ++ root) ++ meta) ++ (leaves ++ tiles) =
      after_root ∙ sym (append_assoc (h ++ root) meta (leaves ++ tiles)) in
    let after_leaves : a ≡ (((h ++ root) ++ meta) ++ leaves) ++ (tiles ++ []) =
      after_meta
      ∙ sym (append_assoc ((h ++ root) ++ meta) leaves tiles)
      ∙ ap (λ x. (((h ++ root) ++ meta) ++ leaves) ++ x) (sym (append-nil tiles)) in
    let n₁ : length (h ++ root) ≡ 127 + length root = omega (arith, hl, length-append h root) in
    let n₂ : length ((h ++ root) ++ meta) ≡ 127 + length root + length meta =
      omega (arith, n₁, length-append (h ++ root) meta) in
    let n₃ : length (((h ++ root) ++ meta) ++ leaves)
        ≡ 127 + length root + length meta + length leaves =
      omega (arith, n₂, length-append ((h ++ root) ++ meta) leaves) in
    (
      slice_between h root _ a _ _ refl (r.0 ∙ sym hl) r.1,
      slice_between (h ++ root) meta _ a _ _ after_root (j.0 ∙ sym n₁) j.1,
      slice_between ((h ++ root) ++ meta) leaves _ a _ _ after_meta (v.0 ∙ sym n₂) v.1,
      slice_between (((h ++ root) ++ meta) ++ leaves) tiles [] a _ _ after_leaves (t.0 ∙ sym n₃)
          t.1,
    )

module _ (gzip_compress : List ℕ → Result (List ℕ)) (f : F64) (w : PmtilesWriter f.Carrier) where
  finish_into-archive :
      IsSpilled w
      → (root leaves meta : List ℕ)
      → directories gzip_compress (directory_entries 0 (sorted_entries w.entries))
        ≡ ok (root, leaves)
      → gzip_compress w.metadata_json ≡ ok meta
      → finish_into gzip_compress f w
        ≡ ok (archive f w root meta leaves (concat_tiles (sorted_tiles (tiles_of w))))
  unfolding finish_into
  finish_into-archive h root leaves meta d m =
      rw (d, ◌>>=◌, m, ◌>>=◌, tile_data-tiles_of w h, ◌>>=◌, end_offset-tiles_of w h) refl

  -- A writer whose spill file is in order and whose directories and metadata compress, of fewer than 2^64 bytes in all, finishes; in
  -- the archive, the four sections that the header places are the root directory, the metadata, the
  -- leaf directories, and the tiles that were added, sorted by id.
  pub finish_into-sections :
      IsSpilled w
      → (root leaves meta : List ℕ)
      → directories gzip_compress (directory_entries 0 (sorted_entries w.entries))
        ≡ ok (root, leaves)
      → gzip_compress w.metadata_json ≡ ok meta
      → 127
          + length root
          + length meta
          + length leaves
          + length (concat_tiles (sorted_tiles (tiles_of w)))
        < 2 ^ 64
      → (a : List ℕ) × (finish_into gzip_compress f w ≡ ok a)
        × (section_of 0 a ≡ root)
        × (section_of 1 a ≡ meta)
        × (section_of 2 a ≡ leaves)
        × (section_of 3 a ≡ concat_tiles (sorted_tiles (tiles_of w)))
  finish_into-sections h root leaves meta d m fits =
      let tiles = concat_tiles (sorted_tiles (tiles_of w)) in
      let (s₀, s₁, s₂, s₃) = archive-sections f w root meta leaves tiles fits in
      (
        archive f w root meta leaves tiles,
        finish_into-archive h root leaves meta d m,
        s₀,
        s₁,
        s₂,
        s₃,
      )
