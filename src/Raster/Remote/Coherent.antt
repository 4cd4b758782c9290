-- ===== src/Raster/Remote/Coherent.antt =====
-- The block cache of http_range.rs against the remote file: it never serves a byte that the file
-- does not hold at that offset.
use raster_h.Raster.Remote.{
  Bytes, ProbeResult, complete, partial, RemoteTransport, RemoteHttpSource, default_block_size,
  source_of_probe, from_transport,
}
use raster_h.Raster.Remote.Slices.{slice}
use raster_h.Common.{
  ℕ, zero, ◌+◌, ◌-◌, ◌*◌, ◌≤◌, ◌<◌, ◌≡◌, refl, subst, ap, ◌∙◌, some, [], length, min, Result, ok,
  err, arith,
}
use raster_h.Common.Eq.{nat_has_eq}
use raster_h.Common.Maps.{lookup, insert}

-- What `RemoteTransport` promises of the bytes that it returns: they are exactly the requested
-- ones, and a probe returns the file or its first block. It may fail at any time.
pub record IsServing (file : Bytes) (t : RemoteTransport) : Type 0 where
  pub exact :
      (a b : ℕ) (bytes : Bytes)
      → a ≤ b
      → b < length file
      → t.fetch_range a b (some (length file)) ≡ ok bytes
      → bytes ≡ slice file a (b - a + 1)
  pub whole :
      (n : ℕ) (bytes : Bytes) (total : ℕ)
      → t.probe n ≡ ok (complete bytes total)
      → (bytes ≡ file) × (total ≡ length file)
  pub front :
      (n : ℕ) (bytes : Bytes) (total : ℕ)
      → t.probe n ≡ ok (partial bytes total)
      → (0 < length file) × (bytes ≡ slice file 0 (min n (length file))) × (total ≡ length file)

-- The block of that index, as the file has it.
abbrev pub IsBlock : Bytes → ℕ → ℕ → Bytes → Type 0
IsBlock file size i block =
    (i * size < length file) × (block ≡ slice file (i * size) (min size (length file - i * size)))

pub record IsCoherent (file : Bytes) (s : RemoteHttpSource) : Type 0 where
  pub serving : IsServing file s.transport
  pub sized : s.total_size ≡ length file
  pub positive : 0 < s.cache.block_size
  pub whole : (full : Bytes) → s.cache.complete_file ≡ some full → full ≡ file
  pub cached :
      (i : ℕ) (block : Bytes)
      → lookup i s.cache.blocks ≡ some block
      → IsBlock file s.cache.block_size i block

-- A source opened over a transport that keeps its promise is coherent with the file.
pub from_transport-IsCoherent :
    (file : Bytes) (t : RemoteTransport) (s : RemoteHttpSource)
    → IsServing file t
    → from_transport t ≡ ok s
    → IsCoherent file s
unfolding from_transport
from_transport-IsCoherent file t s h e = go (t.probe default_block_size) refl e
  where
    ok-injective : {a b : RemoteHttpSource} → ok a ≡ ok b → a ≡ b
    ok-injective p = cc

    first :
        (d block : Bytes) (i : ℕ) → lookup i (insert zero d []) ≡ some block → (i ≡ 0) × (block ≡ d)
    first d block i p = ground arith

    go :
        (r : Result ProbeResult)
        → t.probe default_block_size ≡ r
        → elim r [ err x ↦ err x | ok probe ↦ ok (source_of_probe t probe) ] ≡ ok s
        → IsCoherent file s
    go (err x) p q = cc
    go (ok (complete d n)) p q = subst (IsCoherent file) (ok-injective q) (record {
      serving = h;
      sized = (h.whole default_block_size d n p).1;
      positive = omega arith;
      whole = λ full w. cc (w, (h.whole default_block_size d n p).0);
      cached = λ i block w. cc w;
    })
    go (ok (partial d n)) p q =
        let (pos, same, total) = h.front default_block_size d n p in
        subst (IsCoherent file) (ok-injective q) (record {
          serving = h;
          sized = total;
          positive = omega arith;
          whole = λ full w. cc w;
          cached = λ i block w.
              let (z, b) = first d block i w in
              rw (z, b)
                (
                  pos,
                  same
                      ∙ ap (λ m. slice file 0 (min default_block_size m))
                          (let all : length file ≡ length file - 0 = omega arith in all),
                );
        })
