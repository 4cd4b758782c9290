-- ===== src/Pmtiles/Writer.antt =====
-- `PmtilesWriter` of crates/raster-h3-core/src/pmtiles/writer.rs: its state, the tiles that it
-- spills, and `finish_into`. Files are byte lists whose writes succeed; the compressor of
-- libdeflater and the arithmetic of f64 are parameters.
pub mod Spill
pub mod Sorted
pub mod Archive
pub mod RoundTrip
use raster_h.Pmtiles.Directory.{Entry, encode_directory, build_leaf_directories}
use raster_h.Pmtiles.Hilbert.{zxy_to_tile_id}
use raster_h.Columnar.Utf8.{ascii}
use raster_h.Common.Bytes.{to_le_bytes}
use raster_h.Common.Int.{ℤ, pos, negsuc}
use raster_h.Common.{
  ℕ, zero, suc, ◌+◌, ◌-◌, ◌*◌, ◌/◌, ◌%◌, ◌^◌, Bool, true, false, List, [], ◌∷◌, ◌++◌, length, take,
  drop, ltb, leb, if◌then◌else◌, Result, ok, err, ◌>>=◌, io_unexpected_eof,
}

-- What the writer uses of f64. `to_i32_bits` is the bit pattern of `v as i32`.
pub record F64 : Type 1 where
  pub Carrier : Type 0
  pub lit : ℤ → Carrier
  pub le : Carrier → Carrier → Bool
  pub add : Carrier → Carrier → Carrier
  pub sub : Carrier → Carrier → Carrier
  pub mul : Carrier → Carrier → Carrier
  pub div : Carrier → Carrier → Carrier
  pub rem_euclid : Carrier → Carrier → Carrier
  pub to_i32_bits : Carrier → ℕ

pub record SpillTileEntry : Type 0 where
  pub tile_id : ℕ
  pub spill_offset : ℕ
  pub length : ℕ

pub record PmtilesWriter (F : Type 0) : Type 0 where
  pub spill_file : List ℕ
  pub entries : List SpillTileEntry
  pub current_spill_offset : ℕ
  pub min_zoom : ℕ
  pub max_zoom : ℕ
  pub min_lon : F
  pub min_lat : F
  pub max_lon : F
  pub max_lat : F
  pub metadata_json : List ℕ

-- `[f64; 4]`
pub record Bbox (F : Type 0) : Type 0 where
  pub west : F
  pub south : F
  pub east : F
  pub north : F

module _ {F : Type 0} where
  -- `new` and `new_in`, once the spill file is there.
  unfoldable pub new_in : ℕ → ℕ → Bbox F → List ℕ → PmtilesWriter F
  new_in min_zoom max_zoom bbox metadata_json = record {
    spill_file = [];
    entries = [];
    current_spill_offset = 0;
    min_zoom = min_zoom;
    max_zoom = max_zoom;
    min_lon = bbox.west;
    min_lat = bbox.south;
    max_lon = bbox.east;
    max_lat = bbox.north;
    metadata_json = metadata_json;
  }

  unfoldable pub set_metadata : PmtilesWriter F → Bbox F → List ℕ → PmtilesWriter F
  set_metadata w bbox metadata_json = record w {
    min_lon = bbox.west;
    min_lat = bbox.south;
    max_lon = bbox.east;
    max_lat = bbox.north;
    metadata_json = metadata_json;
  }

  unfoldable pub add_compressed_tile : PmtilesWriter F → ℕ → ℕ → ℕ → List ℕ → PmtilesWriter F
  add_compressed_tile w z x y compressed_data =
      let len = length compressed_data % 2 ^ 32 in
      record w {
        spill_file = w.spill_file ++ compressed_data;
        entries =
            w.entries
            ++ (record {
              tile_id = zxy_to_tile_id z x y;
              spill_offset = w.current_spill_offset;
              length = len;
            }
                ∷ []);
        current_spill_offset = w.current_spill_offset + len;
      }

  unfoldable pub tile_count : PmtilesWriter F → ℕ
  tile_count w = length w.entries

-- `sort_by_key`, which is stable.
module _ {A : Type 0} (key : A → ℕ) where
  unfoldable pub insert_by_key : A → List A → List A
  insert_by_key a [] = a ∷ []
  insert_by_key a (b ∷ bs) = if leb (key a) (key b) then a ∷ b ∷ bs else b ∷ insert_by_key a bs

  unfoldable pub sort_by_key : List A → List A
  unfolding insert_by_key
  sort_by_key [] = []
  sort_by_key (a ∷ as') = insert_by_key a (sort_by_key as')

abbrev pub sorted_entries : List SpillTileEntry → List SpillTileEntry
sorted_entries = sort_by_key (λ e. e.tile_id)

-- The loop that makes the directory, from the tile offset reached.
unfoldable pub directory_entries : ℕ → List SpillTileEntry → List Entry
directory_entries final_tile_offset [] = []
directory_entries final_tile_offset (e ∷ es) =
    record { tile_id = e.tile_id; offset = final_tile_offset; length = e.length; run_length = 1 }
    ∷ directory_entries (final_tile_offset + e.length) es

-- The offset where that loop ends.
unfoldable pub end_offset : ℕ → List SpillTileEntry → ℕ
end_offset final_tile_offset [] = final_tile_offset
end_offset final_tile_offset (e ∷ es) = end_offset (final_tile_offset + e.length) es

-- The tiles, copied from the map of the spill file in the order of the entries.
unfoldable pub stream_tiles : List ℕ → List SpillTileEntry → Result (List ℕ)
stream_tiles mmap [] = ok []
stream_tiles mmap (e ∷ es) =
    let rest = stream_tiles mmap es in
    let end = e.spill_offset + e.length in
    if ltb (length mmap) end
    then err io_unexpected_eof
    else (rest >>= λ tiles. ok (take e.length (drop e.spill_offset mmap) ++ tiles))

-- A spill file without a byte is not mapped.
unfoldable pub tile_data : {F : Type 0} → PmtilesWriter F → Result (List ℕ)
unfolding stream_tiles sort_by_key
tile_data w =
    if ltb 0 w.current_spill_offset
    then stream_tiles w.spill_file (sorted_entries w.entries)
    else ok []

abbrev pub pmtiles_header_size : ℕ
pmtiles_header_size = 127

abbrev pub max_entries_per_leaf : ℕ
max_entries_per_leaf = 4096

abbrev pub compression_gzip : ℕ
compression_gzip = 2

abbrev pub tile_type_mvt : ℕ
tile_type_mvt = 1

-- The lengths of the root directory, the metadata, the leaf directories and the tiles.
pub record Layout : Type 0 where
  pub root_dir_length : ℕ
  pub json_metadata_length : ℕ
  pub leaf_dirs_length : ℕ
  pub tile_data_length : ℕ

-- The eight numbers that place the sections, as the header holds them.
unfoldable pub header_sections : Layout → List ℕ
header_sections l =
    let root_dir_offset = pmtiles_header_size in
    let json_metadata_offset = root_dir_offset + l.root_dir_length in
    let leaf_dirs_offset = json_metadata_offset + l.json_metadata_length in
    let tile_data_offset = leaf_dirs_offset + l.leaf_dirs_length in
    to_le_bytes 8 root_dir_offset
    ++ (to_le_bytes 8 l.root_dir_length
        ++ (to_le_bytes 8 json_metadata_offset
            ++ (to_le_bytes 8 l.json_metadata_length
                ++ (to_le_bytes 8 leaf_dirs_offset
                    ++ (to_le_bytes 8 l.leaf_dirs_length
                        ++ (to_le_bytes 8 tile_data_offset ++ to_le_bytes 8 l.tile_data_length))))))

-- The rest of the header's numbers before the coordinates.
unfoldable pub header_counts : {F : Type 0} → PmtilesWriter F → List ℕ
header_counts w =
    to_le_bytes 8 (length w.entries)
    ++ (to_le_bytes 8 (length w.entries)
        ++ (to_le_bytes 8 (length w.entries)
            ++ (1 ∷ compression_gzip ∷ compression_gzip ∷ tile_type_mvt ∷ w.min_zoom ∷ w.max_zoom
                ∷ [])))

module _ (f : F64) where
  -- `wrap_lon` of crs/transformer.rs.
  unfoldable pub wrap_lon : f.Carrier → f.Carrier
  wrap_lon lon =
      f.sub (f.rem_euclid (f.add lon (f.lit (pos 180))) (f.lit (pos 360))) (f.lit (pos 180))

  -- A degree in units of 1e-7, as an i32.
  abbrev pub e7 : f.Carrier → List ℕ
  e7 v = to_le_bytes 4 (f.to_i32_bits (f.mul v (f.lit (pos 10000000))))

  unfoldable pub center_lon : PmtilesWriter f.Carrier → f.Carrier
  unfolding wrap_lon
  center_lon w =
      if f.le w.min_lon w.max_lon
      then f.div (f.add w.min_lon w.max_lon) (f.lit (pos 2))
      else wrap_lon (
          f.add w.min_lon (
            f.mul (f.add (f.sub (f.lit (pos 180)) w.min_lon) (f.add w.max_lon (f.lit (pos 180))))
              (f.div (f.lit (pos 1)) (f.lit (pos 2)))))

  unfoldable pub header_coordinates : PmtilesWriter f.Carrier → List ℕ
  unfolding center_lon
  header_coordinates w =
      let ordered = f.le w.min_lon w.max_lon in
      e7 (if ordered then w.min_lon else f.lit (negsuc 179))
      ++ (e7 w.min_lat
          ++ (e7 (if ordered then w.max_lon else f.lit (pos 180))
              ++ (e7 w.max_lat
                  ++ ((((w.min_zoom + w.max_zoom) % 256) / 2 ∷ [])
                      ++ (e7 (center_lon w)
                          ++ e7 (f.div (f.add w.min_lat w.max_lat) (f.lit (pos 2))))))))

  unfoldable pub header : PmtilesWriter f.Carrier → Layout → List ℕ
  unfolding header_sections header_counts header_coordinates
  header w l =
      ascii "PMTiles" ++ (3 ∷ (header_sections l ++ (header_counts w ++ header_coordinates w)))

module _ (gzip_compress : List ℕ → Result (List ℕ)) where
  unfoldable pub add_tile :
      {F : Type 0} → PmtilesWriter F → ℕ → ℕ → ℕ → List ℕ → Result (PmtilesWriter F)
  unfolding add_compressed_tile
  add_tile w z x y uncompressed_mvt =
      gzip_compress uncompressed_mvt >>= λ compressed. ok (add_compressed_tile w z x y compressed)

  -- The root directory's bytes and those of the leaf directories.
  unfoldable pub directories : List Entry → Result (List ℕ × List ℕ)
  directories entries =
      let leaves = build_leaf_directories gzip_compress entries max_entries_per_leaf in
      if leb (length entries) max_entries_per_leaf
      then (encode_directory gzip_compress entries >>= λ root_bytes.
          if leb (length root_bytes) 16257 then ok (root_bytes, []) else leaves)
      else leaves

  unfoldable pub finish_into : (f : F64) → PmtilesWriter f.Carrier → Result (List ℕ)
  unfolding directories header tile_data directory_entries end_offset
  finish_into f w =
      let entries = sorted_entries w.entries in
      directories (directory_entries 0 entries) >>= λ (root_dir_bytes, leaf_dirs_bytes).
      gzip_compress w.metadata_json >>= λ metadata_bytes. tile_data w >>= λ tiles.
      let layout : Layout = record {
        root_dir_length = length root_dir_bytes;
        json_metadata_length = length metadata_bytes;
        leaf_dirs_length = length leaf_dirs_bytes;
        tile_data_length = end_offset 0 entries;
      } in
      ok (header f w layout ++ (root_dir_bytes ++ (metadata_bytes ++ (leaf_dirs_bytes ++ tiles))))
