-- ===== src/Pmtiles/Tests.antt =====
-- The theorems on the archive of crates/raster-h3-core/src/pmtiles/writer.rs, applied to a writer
-- of two tiles, with a compressor that puts one byte in front.
use raster_h.Pmtiles.Varint.{write_varint, read_varint, read_varint-write_varint}
use raster_h.Pmtiles.Directory.{
  Entry, write_deltas, write_runs, write_lengths, write_offsets, uncompressed, encode_directory,
}
use raster_h.Pmtiles.Directory.Decode.{IsOrdered, read_directory, read_directory-uncompressed}
use raster_h.Pmtiles.Directory.{chunks, write_leaves, build_leaf_directories}
use raster_h.Pmtiles.Directory.Leaves.{concat, IsChunk, PointsAll, build_leaf_directories-Points}
use raster_h.Pmtiles.Hilbert.{zxy_to_tile_id, tile_id_to_zxy}
use raster_h.Pmtiles.Hilbert.RoundTrip.{tile_id_to_zxy-zxy_to_tile_id}
use raster_h.Pmtiles.Writer.{
  F64, Bbox, PmtilesWriter, add_compressed_tile, insert_by_key, sort_by_key, sorted_entries,
  directory_entries, tile_data, directories, finish_into,
}
use raster_h.Pmtiles.Writer.Spill.{tiles_of, IsSpilled, add_compressed_tile-tiles_of}
use raster_h.Pmtiles.Writer.Sorted.{
  sorted_tiles, concat_tiles, tile_at, tile_data-tiles_of, directory_entries-tiles_of,
}
use raster_h.Pmtiles.Writer.Archive.{section_of, finish_into-sections}
use raster_h.Pmtiles.Writer.RoundTrip.{read_tiles, Fails, finish_into-err, read_tiles-finish_into}
use raster_h.Common.Int.{pos_part}
use raster_h.Common.{
  ℕ, ◌+◌, ◌-◌, ◌*◌, ◌/◌, ◌%◌, ◌^◌, ◌<◌, ◌≡◌, refl, Option, none, some, List, [], ◌∷◌, ◌++◌, map,
  length, leb, All, Result, ok, err, io_invalid_data, arith,
}

read_varint-write_varint_example : read_varint (write_varint 300 ++ (5 ∷ [])) ≡ some (300, 5 ∷ [])
read_varint-write_varint_example = read_varint-write_varint 300 (5 ∷ []) (omega arith)

abbrev two_entries : List Entry
two_entries =
    record { tile_id = 3; offset = 0; length = 10; run_length = 1 }
    ∷ record { tile_id = 9; offset = 10; length = 20; run_length = 1 }
    ∷ []

two_entries-IsOrdered : IsOrdered 0 two_entries
two_entries-IsOrdered = (
  omega arith,
  (omega arith, omega arith, omega arith, omega arith),
  (omega arith, (omega arith, omega arith, omega arith, omega arith), tt),
)

read_directory-uncompressed_example :
    read_directory (uncompressed two_entries ++ (8 ∷ [])) ≡ some (two_entries, 8 ∷ [])
read_directory-uncompressed_example =
    read_directory-uncompressed two_entries (8 ∷ []) two_entries-IsOrdered (omega arith)

tile_id_to_zxy-zxy_to_tile_id_example : tile_id_to_zxy (zxy_to_tile_id 3 5 6) ≡ (3, 5, 6)
tile_id_to_zxy-zxy_to_tile_id_example =
    tile_id_to_zxy-zxy_to_tile_id 3 5 6 (omega arith) (omega arith) (omega arith)

-- Whole degrees.
abbrev degrees : F64
degrees = record {
  Carrier = ℕ;
  lit = pos_part;
  le = leb;
  add = λ a b. a + b;
  sub = λ a b. a - b;
  mul = λ a b. a * b;
  div = λ a b. a / b;
  rem_euclid = λ a b. a % b;
  to_i32_bits = λ a. a % 2 ^ 32;
}

abbrev world : Bbox ℕ
world = record { west = 0; south = 0; east = 180; north = 90 }

abbrev empty_writer : PmtilesWriter ℕ
empty_writer = record {
  spill_file = [];
  entries = [];
  current_spill_offset = 0;
  min_zoom = 1;
  max_zoom = 2;
  min_lon = 0;
  min_lat = 0;
  max_lon = 180;
  max_lat = 90;
  metadata_json = 123 ∷ 125 ∷ [];
}

abbrev two_tiles : PmtilesWriter ℕ
two_tiles = record empty_writer {
  spill_file = 1 ∷ 2 ∷ 3 ∷ 4 ∷ 5 ∷ [];
  entries =
      record { tile_id = 9; spill_offset = 0; length = 3 }
      ∷ record { tile_id = 2; spill_offset = 3; length = 2 }
      ∷ [];
  current_spill_offset = 5;
}

two_tiles-IsSpilled : IsSpilled two_tiles
two_tiles-IsSpilled = (refl, ((omega arith, omega arith), ((omega arith, omega arith), tt)))

add_compressed_tile-tiles_of_example :
    IsSpilled (add_compressed_tile two_tiles 1 0 1 (6 ∷ 7 ∷ []))
    × (tiles_of (add_compressed_tile two_tiles 1 0 1 (6 ∷ 7 ∷ []))
        ≡ tiles_of two_tiles ++ ((zxy_to_tile_id 1 0 1, 6 ∷ 7 ∷ []) ∷ []))
add_compressed_tile-tiles_of_example =
    add_compressed_tile-tiles_of two_tiles 1 0 1 (6 ∷ 7 ∷ []) two_tiles-IsSpilled (omega arith)

tile_data-tiles_of_example :
    tile_data two_tiles ≡ ok (concat_tiles (sorted_tiles (tiles_of two_tiles)))
tile_data-tiles_of_example = tile_data-tiles_of two_tiles two_tiles-IsSpilled

directory_entries-tiles_of_example :
    map
      (tile_at (concat_tiles (sorted_tiles (tiles_of two_tiles))))
      (directory_entries 0 (sorted_entries two_tiles.entries))
    ≡ sorted_tiles (tiles_of two_tiles)
directory_entries-tiles_of_example = directory_entries-tiles_of two_tiles two_tiles-IsSpilled

abbrev marked : List ℕ → Result (List ℕ)
marked bytes = ok (31 ∷ bytes)

abbrev unmarked : List ℕ → Option (List ℕ)
unmarked [] = none
unmarked (b ∷ bytes) = some bytes

unmarked-marked : (bytes c : List ℕ) → marked bytes ≡ ok c → unmarked c ≡ some bytes
unmarked-marked bytes [] h = ground arith
unmarked-marked bytes (b ∷ c) h = cc

abbrev root : List ℕ
root = 31 ∷ 2 ∷ 2 ∷ 7 ∷ 1 ∷ 1 ∷ 2 ∷ 3 ∷ 1 ∷ 0 ∷ []

root-eq : marked (uncompressed (directory_entries 0 (sorted_entries two_tiles.entries))) ≡ ok root
unfolding uncompressed write_deltas write_runs write_lengths write_offsets write_varint
    directory_entries sort_by_key insert_by_key
root-eq = refl

directories-eq :
    directories marked (directory_entries 0 (sorted_entries two_tiles.entries)) ≡ ok (root, [])
unfolding directories encode_directory uncompressed write_deltas write_runs write_lengths
    write_offsets write_varint directory_entries sort_by_key insert_by_key
directories-eq = refl

sizes :
    127 + length root + 3 + 0 + length (concat_tiles (sorted_tiles (tiles_of two_tiles))) < 2 ^ 64
unfolding sort_by_key insert_by_key
sizes = omega arith

sizes_without_leaves :
    127 + length root + 3 + length (concat_tiles (sorted_tiles (tiles_of two_tiles))) < 2 ^ 64
unfolding sort_by_key insert_by_key
sizes_without_leaves = omega arith

finish_into-sections_example :
    (a : List ℕ) × (finish_into marked degrees two_tiles ≡ ok a)
    × (section_of 0 a ≡ root)
    × (section_of 1 a ≡ 31 ∷ 123 ∷ 125 ∷ [])
    × (section_of 2 a ≡ [])
    × (section_of 3 a ≡ concat_tiles (sorted_tiles (tiles_of two_tiles)))
finish_into-sections_example =
    finish_into-sections marked degrees two_tiles two_tiles-IsSpilled root [] (31 ∷ 123 ∷ 125 ∷ [])
      directories-eq refl sizes

read_tiles-finish_into_example :
    (a : List ℕ) × (finish_into marked degrees two_tiles ≡ ok a)
    × (read_tiles unmarked a ≡ some (sorted_tiles (tiles_of two_tiles)))
read_tiles-finish_into_example =
    read_tiles-finish_into marked unmarked unmarked-marked degrees two_tiles root
      (31 ∷ 123 ∷ 125 ∷ []) two_tiles-IsSpilled (omega arith, (omega arith, tt)) (omega arith)
      root-eq (omega arith) refl sizes_without_leaves

abbrev refuses : List ℕ → Result (List ℕ)
refuses bytes = err io_invalid_data

refused : finish_into refuses degrees two_tiles ≡ err io_invalid_data
unfolding finish_into directories encode_directory directory_entries sort_by_key insert_by_key
refused = refl

finish_into-err_example : Fails refuses io_invalid_data
finish_into-err_example =
    finish_into-err refuses degrees two_tiles io_invalid_data two_tiles-IsSpilled refused

abbrev leaf_root : List ℕ
leaf_root = 31 ∷ 2 ∷ 3 ∷ 6 ∷ 0 ∷ 0 ∷ 6 ∷ 6 ∷ 1 ∷ 0 ∷ []

abbrev two_leaves : List ℕ
two_leaves = 31 ∷ 1 ∷ 3 ∷ 1 ∷ 10 ∷ 1 ∷ 31 ∷ 1 ∷ 9 ∷ 1 ∷ 20 ∷ 11 ∷ []

leaves-eq : build_leaf_directories marked two_entries 1 ≡ ok (leaf_root, two_leaves)
unfolding build_leaf_directories write_leaves chunks encode_directory uncompressed write_deltas
    write_runs write_lengths write_offsets write_varint
leaves-eq = refl

build_leaf_directories-Points_example :
    (cs : List (List Entry)) × (pointers : List Entry) × (concat cs ≡ two_entries)
    × All (IsChunk 1) cs
    × (marked (uncompressed pointers) ≡ ok leaf_root)
    × PointsAll marked two_leaves cs pointers
build_leaf_directories-Points_example =
    build_leaf_directories-Points marked two_entries 1 leaf_root two_leaves (omega arith)
      (omega arith) leaves-eq
