-- ===== src/Pmtiles/Directory.antt =====
-- The directory of an archive: `encode_directory` and `build_leaf_directories` of
-- crates/raster-h3-core/src/pmtiles/writer.rs. The compressor of libdeflater is a parameter.
pub mod Decode
pub mod Leaves
use raster_h.Pmtiles.Varint.{write_varint}
use raster_h.Common.{
  ℕ, zero, suc, ◌+◌, ◌-◌, ◌%◌, ◌^◌, ◌≡◌, Bool, true, false, ◌&&◌, Option, none, some, List, [], ◌∷◌,
  ◌++◌, length, take, drop, ◌==◌, ltb, if◌then◌else◌, Result, ok, err, ◌>>=◌,
}

pub record Entry : Type 0 where
  pub tile_id : ℕ
  pub offset : ℕ
  pub length : ℕ
  pub run_length : ℕ

-- The four loops. An id below the one before it would make the subtraction wrap; the writer sorts
-- its entries first.
unfoldable pub write_deltas : ℕ → List Entry → List ℕ
write_deltas last_id [] = []
write_deltas last_id (e ∷ es) =
    write_varint ((e.tile_id + 2 ^ 64 - last_id) % 2 ^ 64) ++ write_deltas e.tile_id es

unfoldable pub write_runs : List Entry → List ℕ
write_runs [] = []
write_runs (e ∷ es) = write_varint e.run_length ++ write_runs es

unfoldable pub write_lengths : List Entry → List ℕ
write_lengths [] = []
write_lengths (e ∷ es) = write_varint e.length ++ write_lengths es

-- `prev` is the end of the entry before, `none` for the first: 0 stands for an entry that begins
-- there, and an offset is written with 1 added.
unfoldable pub write_offsets : Option ℕ → List Entry → List ℕ
write_offsets prev [] = []
write_offsets none (e ∷ es) =
    write_varint (e.offset + 1) ++ write_offsets (some (e.offset + e.length)) es
write_offsets (some end) (e ∷ es) =
    write_varint (if e.offset == end then 0 else e.offset + 1)
    ++ write_offsets (some (e.offset + e.length)) es

-- What `encode_directory` compresses.
unfoldable pub uncompressed : List Entry → List ℕ
unfolding write_deltas write_runs write_lengths write_offsets
uncompressed entries =
    write_varint (length entries)
    ++ (write_deltas 0 entries
        ++ (write_runs entries ++ (write_lengths entries ++ write_offsets none entries)))

-- `entries.chunks(n)`, on fuel: the first chunk, and the chunks of the rest.
unfoldable pub chunks : ℕ → ℕ → List Entry → List (List Entry)
chunks zero n es = []
chunks (suc fuel) n [] = []
chunks (suc fuel) n (e ∷ es) = take n (e ∷ es) ∷ chunks fuel n (drop n (e ∷ es))

abbrev pub first_id : List Entry → ℕ
first_id [] = 0
first_id (e ∷ es) = e.tile_id

module _ (gzip_compress : List ℕ → Result (List ℕ)) where
  unfoldable pub encode_directory : List Entry → Result (List ℕ)
  encode_directory entries = gzip_compress (uncompressed entries)

  -- The loop over the chunks: the pointers and the leaf bytes, from the offset reached.
  unfoldable pub write_leaves : ℕ → List (List Entry) → Result (List Entry × List ℕ)
  write_leaves offset [] = ok ([], [])
  write_leaves offset (chunk ∷ rest) = encode_directory chunk >>= λ leaf_bytes.
      let leaf_len = length leaf_bytes % 2 ^ 32 in
      write_leaves (offset + leaf_len) rest >>= λ (pointers, bytes). ok (
        record { tile_id = first_id chunk; offset = offset; length = leaf_len; run_length = 0 }
            ∷ pointers,
        leaf_bytes ++ bytes,
      )

  -- The root directory's bytes and the leaf directories'.
  unfoldable pub build_leaf_directories : List Entry → ℕ → Result (List ℕ × List ℕ)
  build_leaf_directories entries leaf_size =
      write_leaves 0 (chunks (length entries) leaf_size entries) >>= λ (pointers, leaf_bytes).
      encode_directory pointers >>= λ root. ok (root, leaf_bytes)
