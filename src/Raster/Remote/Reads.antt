-- ===== src/Raster/Remote/Reads.antt =====
-- The reads of http_range.rs through the block cache: each answers the file's own bytes.
use raster_h.Raster.Remote.{
  Bytes, ◌>>=◌, done, copy_into, get_block, or_insert, insert_block, RemoteHttpSource, Read,
  serve_block, fetch_block, fetch_across, read_sparse,
}
use raster_h.Raster.Remote.Slices.{slice, length-slice, copy_into_lem, serve_block-slice}
use raster_h.Common.{
  ℕ, ◌+◌, ◌-◌, ◌*◌, ◌/◌, ◌≤◌, ◌<◌, ◌≡◌, inl, inr, refl, sym, subst, ap, ◌∙◌, Option, none, some,
  ◌++◌, length, drop, min, leb, ltb, ◌==◌, if◌then◌else◌, Result, ok, err, arith, Bool-cases,
  ==_iff, leb→le,
}
use raster_h.Common.Eq.{nat_has_eq}
use raster_h.Common.Maps.{lookup, insert, lookup-insert}
use raster_h.Raster.Remote.Coherent.{IsBlock, IsCoherent}

block_position :
    (offset size : ℕ)
    → 0 < size
    → (offset / size * size ≤ offset) × (offset - offset / size * size < size)
block_position offset size h = grind arith

-- What a read of `out` at the offset answers: all the bytes that the file has there, the rest of
-- the buffer as it was, and a source that is coherent still. It fails only where the transport
-- failed on a range inside the file, and it never panics.
abbrev pub Delivers : Bytes → RemoteHttpSource → ℕ → ℕ → Bytes → Read → Type 0
Delivers file s offset n out none = ⊥
Delivers file s offset n out (some (err e)) =
    (a b : ℕ) × (a ≤ b)
    × (b < length file)
    × (s.transport.fetch_range a b (some s.total_size) ≡ err e)
Delivers file s offset n out (some (ok (count, buf, s'))) =
    (count ≡ n)
    × (buf ≡ slice file offset n ++ drop n out)
    × IsCoherent file s'
    × (s'.transport ≡ s.transport)

module _ (file : Bytes) (s : RemoteHttpSource) (c : IsCoherent file s) where
  fetch_across-Delivers :
      (offset n : ℕ) (out : Bytes)
      → 0 < n
      → offset + n ≤ length file
      → n ≤ length out
      → Delivers file s offset n out (fetch_across s offset n out)
  unfolding fetch_across
  fetch_across-Delivers offset n out pos fits room =
      go (s.transport.fetch_range offset (offset + n - 1) (some s.total_size)) refl
    where
      go :
          (r : Result Bytes)
          → s.transport.fetch_range offset (offset + n - 1) (some s.total_size) ≡ r
          → Delivers file s offset n out
              (some r >>= λ fetched. copy_into n fetched out >>= λ out'. done (n, out', s))
      go (err e) p = (offset, offset + n - 1, omega arith, omega arith, p)
      go (ok bytes) p =
          let read : bytes ≡ slice file offset n =
            c.serving.exact offset (offset + n - 1) bytes (omega arith) (omega arith) (
              subst (λ m. s.transport.fetch_range offset (offset + n - 1) (some m) ≡ ok bytes)
                c.sized p)
            ∙ ap (slice file offset) (let m : offset + n - 1 - offset + 1 ≡ n = omega arith in m) in
          rw
            (
              copy_into_lem n bytes out (ap length read ∙ length-slice file offset n fits) room,
              ◌>>=◌,
            )
            (refl, ap (λ b. b ++ drop n out) read, c, refl)

  -- Keeping a right block, or finding one in its place, leaves the cache right.
  insert_block-IsCoherent :
      (i : ℕ) (block : Bytes)
      → IsBlock file s.cache.block_size i block
      → IsBlock file s.cache.block_size i (insert_block s.cache i block).0
        × IsCoherent file (record s { cache = (insert_block s.cache i block).1 })
  unfolding insert_block
  insert_block-IsCoherent i block b = go (lookup i s.cache.blocks) refl
    where
      put :
          (j : ℕ) (d : Bytes)
          → lookup j (insert i block s.cache.blocks) ≡ some d
          → IsBlock file s.cache.block_size j d
      put j d w = elim (Bool-cases (i == j)) [
        | inl here ↦
            let q : some block ≡ some d =
              rw here at (sym (lookup-insert i j block s.cache.blocks) ∙ w) in
            let e : d ≡ block = cc in rw (sym ((==_iff i j).0 here), e) b
        | inr there ↦ c.cached j d (rw there at (sym (lookup-insert i j block s.cache.blocks) ∙ w))
      ]

      go :
          (o : Option Bytes)
          → lookup i s.cache.blocks ≡ o
          → IsBlock file s.cache.block_size i (or_insert s.cache i block o).0
            × IsCoherent file (record s { cache = (or_insert s.cache i block o).1 })
      go (some old) p = (c.cached i old p, c)
      go none p = (
        b,
        record {
          serving = c.serving;
          sized = c.sized;
          positive = c.positive;
          whole = c.whole;
          cached = put;
        },
      )

  fetch_block-Delivers :
      (i o n : ℕ) (out : Bytes)
      → i * s.cache.block_size + o + n ≤ length file
      → o + n ≤ s.cache.block_size
      → 0 < n
      → n ≤ length out
      → Delivers file s (i * s.cache.block_size + o) n out (fetch_block s i o n out)
  unfolding fetch_block
  fetch_block-Delivers i o n out fits inside pos room =
      go (s.transport.fetch_range start (end - 1) (some s.total_size)) refl
    where
      start : ℕ
      start = i * s.cache.block_size

      end : ℕ
      end = min (start + s.cache.block_size) s.total_size

      size : ℕ
      size = min s.cache.block_size (length file - start)

      go :
          (r : Result Bytes)
          → s.transport.fetch_range start (end - 1) (some s.total_size) ≡ r
          → Delivers file s (start + o) n out (
              some r >>= λ fetched.
              serve_block
                (record s { cache = (insert_block s.cache i fetched).1 })
                (insert_block s.cache i fetched).0
                o
                n
                out)
      go (err e) p = (start, end - 1, omega (arith, c.sized, c.positive), omega (arith, c.sized), p)
      go (ok bytes) p =
          let read : bytes ≡ slice file start size =
            c.serving.exact start (end - 1) bytes (omega (arith, c.sized, c.positive))
              (omega (arith, c.sized))
              (subst (λ m. s.transport.fetch_range start (end - 1) (some m) ≡ ok bytes) c.sized p)
            ∙ ap (slice file start)
                (let m : end - 1 - start + 1 ≡ size = omega (arith, c.sized, c.positive) in m) in
          let (block, kept) = insert_block-IsCoherent i bytes (omega arith, read) in
          rw
            (serve_block-slice (record s { cache = (insert_block s.cache i bytes).1 }) file
              (insert_block s.cache i bytes).0 out start size o n block.1 (omega arith)
              (omega arith) room)
            (refl, refl, kept, refl)

  -- A cached block serves a read inside it, without a fetch.
  serve_block-Delivers :
      (i o n : ℕ) (block out : Bytes)
      → IsBlock file s.cache.block_size i block
      → i * s.cache.block_size + o + n ≤ length file
      → o + n ≤ s.cache.block_size
      → n ≤ length out
      → Delivers file s (i * s.cache.block_size + o) n out (serve_block s block o n out)
  serve_block-Delivers i o n block out b fits inside room =
      rw
        (serve_block-slice s file block out (i * s.cache.block_size)
          (min s.cache.block_size (length file - i * s.cache.block_size)) o n b.1 (omega arith)
          (omega arith) room)
        (refl, refl, c, refl)

  pub read_sparse-Delivers :
      (offset n : ℕ) (out : Bytes)
      → 0 < n
      → offset + n ≤ length file
      → n ≤ length out
      → Delivers file s offset n out (read_sparse s offset n out)
  unfolding read_sparse get_block
  read_sparse-Delivers offset n out pos fits room =
      elim (Bool-cases (leb n (s.cache.block_size - o))) [
        | inl inside ↦
            rw (inside, read_sparse) (found (lookup i s.cache.blocks) refl (leb→le _ _ inside))
        | inr across ↦ rw (across, read_sparse) (fetch_across-Delivers offset n out pos fits room)
      ]
    where
      i : ℕ
      i = offset / s.cache.block_size

      o : ℕ
      o = offset - i * s.cache.block_size

      at : i * s.cache.block_size + o ≡ offset
      at = omega (arith, block_position offset s.cache.block_size c.positive)

      below : o < s.cache.block_size
      below = (block_position offset s.cache.block_size c.positive).1

      fetched : n ≤ s.cache.block_size - o → Delivers file s offset n out (fetch_block s i o n out)
      fetched h =
          subst (λ x. Delivers file s x n out (fetch_block s i o n out)) at
            (fetch_block-Delivers i o n out (omega (arith, at)) (omega (arith, below)) pos room)

      found :
          (b : Option Bytes)
          → lookup i s.cache.blocks ≡ b
          → n ≤ s.cache.block_size - o
          → Delivers file s offset n out (elim b [
            | none ↦ fetch_block s i o n out
            | some block ↦
                if ltb o (length block)
                then serve_block s block o n out
                else fetch_block s i o n out
          ])
      found none e h = fetched h
      found (some block) e h = elim (Bool-cases (ltb o (length block))) [
        | inl held ↦ rw held (
            subst (λ x. Delivers file s x n out (serve_block s block o n out)) at
              (serve_block-Delivers i o n block out (c.cached i block e) (omega (arith, at))
                (omega (arith, below)) room))
        | inr missing ↦ rw missing (fetched h)
      ]
