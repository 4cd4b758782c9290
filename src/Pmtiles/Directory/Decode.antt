-- ===== src/Pmtiles/Directory/Decode.antt =====
-- A directory's reader, written from the PMTiles v3 description, and that it reads back what
-- `encode_directory` of writer.rs wrote.
use raster_h.Pmtiles.Varint.{write_varint, read_varint, read_varint-write_varint}
use raster_h.Pmtiles.Directory.{
  Entry, write_deltas, write_runs, write_lengths, write_offsets, uncompressed,
}
use raster_h.Common.{
  ℕ, zero, suc, ◌+◌, ◌-◌, ◌%◌, ◌^◌, ◌≤◌, ◌<◌, ◌≡◌, refl, ap, ap₂, ◌∙◌, Option, none, some, List, [],
  ◌∷◌, ◌++◌, append_assoc, map, length, length-map, All, ◌==◌, if◌then◌else◌, arith,
}

-- `n` varints.
read_varints : ℕ → List ℕ → Option (List ℕ × List ℕ)
read_varints zero bs = some ([], bs)
read_varints (suc n) bs = elim (read_varint bs) [
  | none ↦ none
  | some (v, rest) ↦ elim (read_varints n rest) [ none ↦ none | some (vs, r) ↦ some (v ∷ vs, r) ]
]

-- A code of 0 goes on where the entry before ends.
offset_of_code : Option ℕ → ℕ → ℕ
offset_of_code none o = o - 1
offset_of_code (some end) o = if o == 0 then end else o - 1

-- Ids are sums of the deltas.
entries_of : ℕ → Option ℕ → List ℕ → List ℕ → List ℕ → List ℕ → List Entry
entries_of last prev (d ∷ ds) (r ∷ rs) (l ∷ ls) (o ∷ os) =
    record { tile_id = last + d; offset = offset_of_code prev o; length = l; run_length = r }
    ∷ entries_of (last + d) (some (offset_of_code prev o + l)) ds rs ls os
entries_of last prev _ _ _ _ = []

unfoldable pub read_directory : List ℕ → Option (List Entry × List ℕ)
unfolding read_varints entries_of offset_of_code
read_directory bs = elim (read_varint bs) [
  | none ↦ none
  | some (n, b₁) ↦ elim (read_varints n b₁) [
    | none ↦ none
    | some (ds, b₂) ↦ elim (read_varints n b₂) [
      | none ↦ none
      | some (rs, b₃) ↦ elim (read_varints n b₃) [
        | none ↦ none
        | some (ls, b₄) ↦ elim (read_varints n b₄) [
          | none ↦ none
          | some (os, rest) ↦ some (entries_of 0 none ds rs ls os, rest)
        ]
      ]
    ]
  ]
]

-- The fields fit their machine types: ids and offsets a u64, lengths and runs a u32.
abbrev pub IsEntry : Entry → Type 0
IsEntry e =
    (e.tile_id < 2 ^ 64) × (e.offset + 1 < 2 ^ 64) × (e.length < 2 ^ 32) × (e.run_length < 2 ^ 32)

-- The ids do not fall, from `last` on.
abbrev pub IsOrdered : ℕ → List Entry → Type 0
IsOrdered last [] = Unit {0}
IsOrdered last (e ∷ es) = (last ≤ e.tile_id) × IsEntry e × IsOrdered e.tile_id es

-- The numbers that the four loops write, as lists.
write_all : List ℕ → List ℕ
write_all [] = []
write_all (v ∷ vs) = write_varint v ++ write_all vs

deltas : ℕ → List Entry → List ℕ
deltas last [] = []
deltas last (e ∷ es) = (e.tile_id - last) ∷ deltas e.tile_id es

runs : List Entry → List ℕ
runs = map (λ e. e.run_length)

lengths : List Entry → List ℕ
lengths = map (λ e. e.length)

offset_code : Option ℕ → Entry → ℕ
offset_code none e = e.offset + 1
offset_code (some end) e = if e.offset == end then 0 else e.offset + 1

offset_codes : Option ℕ → List Entry → List ℕ
offset_codes prev [] = []
offset_codes prev (e ∷ es) = offset_code prev e ∷ offset_codes (some (e.offset + e.length)) es

write_deltas-deltas :
    (last : ℕ) (es : List Entry)
    → IsOrdered last es
    → write_deltas last es ≡ write_all (deltas last es)
unfolding write_deltas write_all deltas
write_deltas-deltas last [] h = refl
write_deltas-deltas last (e ∷ es) (le, fits, rest) =
    ap₂ (λ d t. write_varint d ++ t)
      (let wraps : (e.tile_id + 2 ^ 64 - last) % 2 ^ 64 ≡ e.tile_id - last = omega arith in wraps)
      (write_deltas-deltas e.tile_id es rest)

write_runs-runs : (es : List Entry) → write_runs es ≡ write_all (runs es)
unfolding write_runs write_all runs
write_runs-runs [] = refl
write_runs-runs (e ∷ es) = ap (λ t. write_varint e.run_length ++ t) (write_runs-runs es)

write_lengths-lengths : (es : List Entry) → write_lengths es ≡ write_all (lengths es)
unfolding write_lengths write_all lengths
write_lengths-lengths [] = refl
write_lengths-lengths (e ∷ es) = ap (λ t. write_varint e.length ++ t) (write_lengths-lengths es)

write_offsets-codes :
    (prev : Option ℕ) (es : List Entry) → write_offsets prev es ≡ write_all (offset_codes prev es)
unfolding write_offsets write_all offset_codes offset_code
write_offsets-codes none [] = refl
write_offsets-codes (some end) [] = refl
write_offsets-codes none (e ∷ es) =
    ap (λ t. write_varint (e.offset + 1) ++ t) (write_offsets-codes (some (e.offset + e.length)) es)
write_offsets-codes (some end) (e ∷ es) =
    ap (λ t. write_varint (if e.offset == end then 0 else e.offset + 1) ++ t)
      (write_offsets-codes (some (e.offset + e.length)) es)

abbrev IsU64 : ℕ → Type 0
IsU64 v = v < 2 ^ 64

read_varints-write_all :
    (n : ℕ) (vs rest : List ℕ)
    → length vs ≡ n
    → All IsU64 vs
    → read_varints n (write_all vs ++ rest) ≡ some (vs, rest)
unfolding read_varints write_all
read_varints-write_all zero [] rest l h = refl
read_varints-write_all zero (v ∷ vs) rest l h = absurd (omega arith)
read_varints-write_all (suc n) [] rest l h = absurd (omega arith)
read_varints-write_all (suc n) (v ∷ vs) rest l h =
    rw
      (
        append_assoc (write_varint v) (write_all vs) rest,
        read_varint-write_varint v (write_all vs ++ rest) h.0,
        read_varints,
      )
      (rw (read_varints-write_all n vs rest (omega arith) h.1) refl)

deltas-IsU64 : (last : ℕ) (es : List Entry) → IsOrdered last es → All IsU64 (deltas last es)
unfolding deltas
deltas-IsU64 last [] h = tt
deltas-IsU64 last (e ∷ es) (le, fits, rest) = (omega arith, deltas-IsU64 e.tile_id es rest)

runs-IsU64 : (last : ℕ) (es : List Entry) → IsOrdered last es → All IsU64 (runs es)
unfolding runs
runs-IsU64 last [] h = tt
runs-IsU64 last (e ∷ es) (le, fits, rest) = (omega arith, runs-IsU64 e.tile_id es rest)

lengths-IsU64 : (last : ℕ) (es : List Entry) → IsOrdered last es → All IsU64 (lengths es)
unfolding lengths
lengths-IsU64 last [] h = tt
lengths-IsU64 last (e ∷ es) (le, fits, rest) = (omega arith, lengths-IsU64 e.tile_id es rest)

offset_code-lt : (prev : Option ℕ) (e : Entry) → IsEntry e → offset_code prev e < 2 ^ 64
unfolding offset_code
offset_code-lt none e h = h.1
offset_code-lt (some end) e h = ground arith

offset_codes-IsU64 :
    (last : ℕ) (prev : Option ℕ) (es : List Entry)
    → IsOrdered last es
    → All IsU64 (offset_codes prev es)
unfolding offset_codes
offset_codes-IsU64 last prev [] h = tt
offset_codes-IsU64 last prev (e ∷ es) (le, fits, rest) =
    (offset_code-lt prev e fits, offset_codes-IsU64 e.tile_id (some (e.offset + e.length)) es rest)

offset_of_code-offset_code :
    (prev : Option ℕ) (e : Entry) → offset_of_code prev (offset_code prev e) ≡ e.offset
unfolding offset_of_code offset_code
offset_of_code-offset_code none e = omega arith
offset_of_code-offset_code (some end) e = ground arith

entries_of-codes :
    (last : ℕ) (prev : Option ℕ) (es : List Entry)
    → IsOrdered last es
    → entries_of last prev (deltas last es) (runs es) (lengths es) (offset_codes prev es) ≡ es
unfolding entries_of deltas runs lengths offset_codes
entries_of-codes last prev [] h = refl
entries_of-codes last prev (e ∷ es) (le, fits, rest) =
    let id : last + (e.tile_id - last) ≡ e.tile_id = omega arith in
    ap₂
      (λ t o.
        (let x : Entry = record {
          tile_id = t;
          offset = o;
          length = e.length;
          run_length = e.run_length;
        } in
          x)
        ∷ entries_of t (some (o + e.length)) (deltas e.tile_id es) (runs es) (lengths es)
            (offset_codes (some (e.offset + e.length)) es))
      id (offset_of_code-offset_code prev e)
    ∙ ap (λ t. e ∷ t) (entries_of-codes e.tile_id (some (e.offset + e.length)) es rest)

length-deltas : (last : ℕ) (es : List Entry) → length (deltas last es) ≡ length es
unfolding deltas
length-deltas last [] = refl
length-deltas last (e ∷ es) = ap suc (length-deltas e.tile_id es)

length-codes : (prev : Option ℕ) (es : List Entry) → length (offset_codes prev es) ≡ length es
unfolding offset_codes
length-codes prev [] = refl
length-codes prev (e ∷ es) = ap suc (length-codes (some (e.offset + e.length)) es)

read_directory-parts :
    (bs : List ℕ) {n : ℕ} {b₁ b₂ b₃ b₄ rest ds rs ls os : List ℕ}
    → read_varint bs ≡ some (n, b₁)
    → read_varints n b₁ ≡ some (ds, b₂)
    → read_varints n b₂ ≡ some (rs, b₃)
    → read_varints n b₃ ≡ some (ls, b₄)
    → read_varints n b₄ ≡ some (os, rest)
    → read_directory bs ≡ some (entries_of 0 none ds rs ls os, rest)
unfolding read_directory
read_directory-parts bs e₀ e₁ e₂ e₃ e₄ = rw (e₀, read_directory, e₁, e₂, e₃, e₄) refl

-- Reading a directory gives the entries that were written, and what follows it: for fewer than 2^64
-- entries in the order of their ids, with fields of their machine types.
pub read_directory-uncompressed :
    (es : List Entry) (rest : List ℕ)
    → IsOrdered 0 es
    → length es < 2 ^ 64
    → read_directory (uncompressed es ++ rest) ≡ some (es, rest)
unfolding uncompressed runs lengths
read_directory-uncompressed es rest h n =
    let k = length es in
    let d = write_all (deltas 0 es) in
    let r = write_all (runs es) in
    let l = write_all (lengths es) in
    let o = write_all (offset_codes none es) in
    rw
      (
        write_deltas-deltas 0 es h,
        write_runs-runs es,
        write_lengths-lengths es,
        write_offsets-codes none es,
        append_assoc (write_varint k) (d ++ (r ++ (l ++ o))) rest,
        append_assoc d (r ++ (l ++ o)) rest,
        append_assoc r (l ++ o) rest,
        append_assoc l o rest,
      )
      (read_directory-parts _ (read_varint-write_varint k (d ++ (r ++ (l ++ (o ++ rest)))) n)
          (read_varints-write_all k (deltas 0 es) (r ++ (l ++ (o ++ rest))) (length-deltas 0 es)
            (deltas-IsU64 0 es h))
          (read_varints-write_all k (runs es) (l ++ (o ++ rest)) (length-map _ es)
            (runs-IsU64 0 es h))
          (read_varints-write_all k (lengths es) (o ++ rest) (length-map _ es)
            (lengths-IsU64 0 es h))
          (read_varints-write_all k (offset_codes none es) rest (length-codes none es)
            (offset_codes-IsU64 0 none es h))
        ∙ rw (entries_of-codes 0 none es h) refl)
