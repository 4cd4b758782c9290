-- ===== src/Pmtiles/Directory/Leaves.antt =====
-- The leaf directories that `build_leaf_directories` of
-- crates/raster-h3-core/src/pmtiles/writer.rs cuts a directory into.
use raster_h.Pmtiles.Directory.{
  Entry, uncompressed, chunks, first_id, encode_directory, write_leaves, build_leaf_directories,
}
use raster_h.Common.{
  ℕ, zero, suc, ◌+◌, ◌%◌, ◌^◌, ◌≤◌, ◌<◌, ◌≡◌, refl, sym, ap, ap₂, ◌∙◌, subst, List, [], ◌∷◌, ◌++◌,
  append_assoc, length, length-append, length-drop, length-take, take, drop, take-append,
  take-append-drop, drop-append, All, Result, ok, >>=-eq-ok, arith,
}

-- Chunks are pieces of the list, none empty, each of at most `n` entries.
abbrev pub concat : List (List Entry) → List Entry
concat [] = []
concat (c ∷ cs) = c ++ concat cs

abbrev pub IsChunk : ℕ → List Entry → Type 0
IsChunk n c = (0 < length c) × (length c ≤ n)

chunks-concat :
    (fuel n : ℕ) (es : List Entry)
    → 0 < n
    → length es ≤ fuel
    → (concat (chunks fuel n es) ≡ es) × All (IsChunk n) (chunks fuel n es)
unfolding chunks
chunks-concat zero n [] pos h = (refl, tt)
chunks-concat zero n (e ∷ es) pos h = absurd (omega arith)
chunks-concat (suc fuel) n [] pos h = (refl, tt)
chunks-concat (suc fuel) n (e ∷ es) pos h =
    let (whole, sized) =
      chunks-concat fuel n (drop n (e ∷ es)) pos (omega (arith, h, pos, length-drop n (e ∷ es))) in
    (
      ap (λ t. take n (e ∷ es) ++ t) whole ∙ take-append-drop n (e ∷ es),
      ((omega (arith, pos, length-take n (e ∷ es)), omega (arith, length-take n (e ∷ es))), sized),
    )

module _ (gzip_compress : List ℕ → Result (List ℕ)) where
  -- A pointer of the root: the chunk's first id, and where in the leaf bytes the chunk's directory
  -- lies, compressed; a run length of 0 marks it.
  abbrev pub Points : List ℕ → List Entry → Entry → Type 0
  Points bytes chunk p =
      (p.tile_id ≡ first_id chunk)
      × (p.run_length ≡ 0)
      × (gzip_compress (uncompressed chunk) ≡ ok (take p.length (drop p.offset bytes)))

  abbrev pub PointsAll : List ℕ → List (List Entry) → List Entry → Type 0
  PointsAll bytes [] [] = Unit {0}
  PointsAll bytes [] (p ∷ ps) = ⊥
  PointsAll bytes (c ∷ cs) [] = ⊥
  PointsAll bytes (c ∷ cs) (p ∷ ps) = Points bytes c p × PointsAll bytes cs ps

  write_leaves-PointsAll :
      (cs : List (List Entry)) (o : ℕ) (before : List ℕ) (pointers : List Entry) (bytes : List ℕ)
      → o ≡ length before
      → length bytes < 2 ^ 32
      → write_leaves gzip_compress o cs ≡ ok (pointers, bytes)
      → PointsAll (before ++ bytes) cs pointers
  unfolding write_leaves encode_directory
  write_leaves-PointsAll [] o before [] bytes at short h = tt
  write_leaves-PointsAll [] o before (p ∷ ps) bytes at short h = cc
  write_leaves-PointsAll (c ∷ cs) o before pointers bytes at short h =
      let (leaf, made, h') = >>=-eq-ok (gzip_compress (uncompressed c)) _ h in
      let ((ps, rest), later, h'') =
        >>=-eq-ok (write_leaves gzip_compress (o + length leaf % 2 ^ 32) cs) _ h' in
      go leaf ps rest made later h'' (λ fits.
        write_leaves-PointsAll cs (o + length leaf % 2 ^ 32) (before ++ leaf) ps rest
          (omega (arith, at, fits, length-append before leaf, length-append leaf rest))
          (omega (arith, fits, length-append leaf rest)) later)
    where
      go :
          (leaf : List ℕ) (ps : List Entry) (rest : List ℕ)
          → gzip_compress (uncompressed c) ≡ ok leaf
          → write_leaves gzip_compress (o + length leaf % 2 ^ 32) cs ≡ ok (ps, rest)
          → ◌≡◌ {A = Result (List Entry × List ℕ)}
              (ok (
                record {
                  tile_id = first_id c;
                  offset = o;
                  length = length leaf % 2 ^ 32;
                  run_length = 0;
                }
                    ∷ ps,
                leaf ++ rest,
              ))
              (ok (pointers, bytes))
          → (length (leaf ++ rest) < 2 ^ 32 → PointsAll ((before ++ leaf) ++ rest) cs ps)
          → PointsAll (before ++ bytes) (c ∷ cs) pointers
      go leaf ps rest made later e more =
          let same : bytes ≡ leaf ++ rest = cc in
          let short' : length (leaf ++ rest) < 2 ^ 32 = subst (λ b. length b < 2 ^ 32) same short in
          let whole : length leaf % 2 ^ 32 ≡ length leaf =
            omega (arith, short', length-append leaf rest) in
          let p : Entry = record {
            tile_id = first_id c;
            offset = o;
            length = length leaf % 2 ^ 32;
            run_length = 0;
          } in
          let front : p ∷ ps ≡ pointers = cc in
          let slice : take (length leaf % 2 ^ 32) (drop o (before ++ (leaf ++ rest))) ≡ leaf =
            ap₂ (λ n k. take n (drop k (before ++ (leaf ++ rest)))) whole
              (let z : o ≡ length before + 0 = omega arith in z)
            ∙ ap (take (length leaf)) (drop-append 0 before (leaf ++ rest))
            ∙ take-append leaf rest in
          subst (PointsAll (before ++ bytes) (c ∷ cs)) front (
            subst (λ b. PointsAll (before ++ b) (c ∷ cs) (p ∷ ps)) (sym same)
              (
                (refl, refl, made ∙ ap ok (sym slice)),
                subst (λ b. PointsAll b cs ps) (append_assoc before leaf rest) (more short'),
              ))

  -- Of a directory cut into leaves of less than 2^32 bytes in all: the chunks are the entries, in
  -- order, none empty and each of at most `leaf_size`; the root is the compressed directory of one
  -- pointer for each, which holds the chunk's first id and the place of its compressed directory in
  -- the leaf bytes.
  pub build_leaf_directories-Points :
      (es : List Entry) (leaf_size : ℕ) (root leaves : List ℕ)
      → 0 < leaf_size
      → length leaves < 2 ^ 32
      → build_leaf_directories gzip_compress es leaf_size ≡ ok (root, leaves)
      → (cs : List (List Entry)) × (pointers : List Entry) × (concat cs ≡ es)
        × All (IsChunk leaf_size) cs
        × (gzip_compress (uncompressed pointers) ≡ ok root)
        × PointsAll leaves cs pointers
  unfolding build_leaf_directories encode_directory
  build_leaf_directories-Points es leaf_size root leaves pos short h =
      let cs = chunks (length es) leaf_size es in
      let ((pointers, bytes), made, h') = >>=-eq-ok (write_leaves gzip_compress 0 cs) _ h in
      let (top, rooted, h'') = >>=-eq-ok (gzip_compress (uncompressed pointers)) _ h' in
      let same_root : top ≡ root = cc in
      let same_bytes : bytes ≡ leaves = cc in
      let (whole, sized) = chunks-concat (length es) leaf_size es pos (omega arith) in
      (
        cs,
        pointers,
        whole,
        sized,
        rooted ∙ ap ok same_root,
        subst (λ b. PointsAll b cs pointers) same_bytes
            (write_leaves-PointsAll cs 0 [] pointers bytes refl
              (subst (λ b. length b < 2 ^ 32) (sym same_bytes) short) made),
      )
