-- ===== src/Raster/Remote.antt =====
-- `RemoteHttpSource` and its `ByteCache` of
-- crates/raster-h3-core/src/raster/http_range.rs. The transport is a parameter. The locks only
-- guard the cache, and no thread panics under one, so they are not modelled.
pub mod Slices
pub mod Coherent
pub mod Reads
pub mod Exact
use raster_h.Common.{
  ℕ, zero, suc, ◌+◌, ◌-◌, ◌*◌, ◌/◌, ◌%◌, ◌≤◌, ◌<◌, ◌≡◌, Bool, true, false, ◌&&◌, ◌||◌, Option, none,
  some, List, [], ◌∷◌, ◌++◌, length, take, drop, replicate, min, leb, ltb, ◌==◌, if◌then◌else◌,
  Result, ok, err, RasterH3Error, invalid_parameter,
}
use raster_h.Common.Eq.{nat_has_eq}
use raster_h.Common.Maps.{lookup, insert}

abbrev pub Bytes : Type 0
Bytes = List ℕ

pub data ProbeResult : Type 0 where
  complete : Bytes → ℕ → ProbeResult
  partial : Bytes → ℕ → ProbeResult

-- The trait `RemoteTransport`.
pub record RemoteTransport : Type 0 where
  pub fetch_range : ℕ → ℕ → Option ℕ → Result Bytes
  pub probe : ℕ → Result ProbeResult

-- A call that may panic: `none`, on a slice that is out of bounds or of another length.
abbrev pub Outcome : Type 0 → Type 0
Outcome A = Option (Result A)

infixl 5 ◌>>=◌
abbrev pub ◌>>=◌ : {A B : Type 0} → Outcome A → (A → Outcome B) → Outcome B
none >>= f = none
some (err e) >>= f = some (err e)
some (ok a) >>= f = f a

abbrev pub done : {A : Type 0} → A → Outcome A
done a = some (ok a)

pub record ByteCache : Type 0 where
  pub block_size : ℕ
  pub complete_file : Option Bytes
  pub blocks : List (ℕ × Bytes)

unfoldable pub new_with_complete : Bytes → ℕ → ByteCache
new_with_complete content block_size = record {
  block_size = block_size;
  complete_file = some content;
  blocks = [];
}

unfoldable pub new_with_initial_block : Bytes → ℕ → ByteCache
new_with_initial_block content block_size = record {
  block_size = block_size;
  complete_file = none;
  blocks = insert zero content [];
}

-- `xs[start..end]`, for start ≤ end.
unfoldable pub range : ℕ → ℕ → Bytes → Outcome Bytes
range start end xs = if leb end (length xs) then done (take (end - start) (drop start xs)) else none

-- `out[..n].copy_from_slice(xs)`, where `xs` has to be `n` bytes long.
unfoldable pub copy_into : ℕ → Bytes → Bytes → Outcome Bytes
copy_into n xs out =
    if (length xs == n) && leb n (length out) then done (xs ++ drop n out) else none

-- The copied count and the buffer afterwards; `none` inside where the cache is no whole file.
unfoldable pub copy_from_complete : ByteCache → ℕ → Bytes → Outcome (Option (ℕ × Bytes))
unfolding range copy_into
copy_from_complete cache offset out = elim cache.complete_file [
  | none ↦ done none
  | some full ↦
      if leb (length full) offset || (length out == 0)
      then done (some (0, out))
      else (let actual_len = min (length out) (length full - offset) in
          range offset (offset + actual_len) full >>= λ xs.
          copy_into actual_len xs out >>= λ out'. done (some (actual_len, out')))
]

unfoldable pub get_block : ByteCache → ℕ → Option Bytes
get_block cache block_idx = lookup block_idx cache.blocks

unfoldable pub or_insert : ByteCache → ℕ → Bytes → Option Bytes → Bytes × ByteCache
or_insert cache block_idx content (some old) = (old, cache)
or_insert cache block_idx content none =
    (content, record cache { blocks = insert block_idx content cache.blocks })

-- A block that is there already is kept, and returned.
unfoldable pub insert_block : ByteCache → ℕ → Bytes → Bytes × ByteCache
unfolding or_insert
insert_block cache block_idx content =
    or_insert cache block_idx content (lookup block_idx cache.blocks)

pub record RemoteHttpSource : Type 0 where
  pub total_size : ℕ
  pub transport : RemoteTransport
  pub cache : ByteCache

abbrev pub default_block_size : ℕ
default_block_size = 131072

unfoldable pub source_of_probe : RemoteTransport → ProbeResult → RemoteHttpSource
source_of_probe t (complete content total_size) = record {
  total_size = total_size;
  transport = t;
  cache = new_with_complete content default_block_size;
}
source_of_probe t (partial content total_size) = record {
  total_size = total_size;
  transport = t;
  cache = new_with_initial_block content default_block_size;
}

unfoldable pub from_transport : RemoteTransport → Result RemoteHttpSource
unfolding source_of_probe new_with_complete new_with_initial_block
from_transport t = elim (t.probe default_block_size) [
  | err e ↦ err e
  | ok probe ↦ ok (source_of_probe t probe)
]

unfoldable pub is_complete : ByteCache → Bool
is_complete cache = elim cache.complete_file [ none ↦ false | some _ ↦ true ]

-- What `fetch_range` makes of the cached copy, for a request of `n` bytes.
unfoldable pub cached_range : RemoteHttpSource → ℕ → ℕ → ℕ → Option (ℕ × Bytes) → Outcome Bytes
cached_range s start end n none = some (s.transport.fetch_range start end (some s.total_size))
cached_range s start end n (some (copied, buf)) =
    if copied == n then done buf else some (err invalid_parameter)

unfoldable pub fetch_range : RemoteHttpSource → ℕ → ℕ → Outcome Bytes
unfolding cached_range copy_from_complete is_complete
fetch_range s start end =
    if is_complete s.cache && leb start end && ltb end s.total_size
    then (copy_from_complete s.cache start (replicate (end - start + 1) 0)
        >>= cached_range s start end (end - start + 1))
    else some (s.transport.fetch_range start end (some s.total_size))

-- A read answers the count, the buffer and the source with its cache.
abbrev pub Read : Type 0
Read = Outcome (ℕ × Bytes × RemoteHttpSource)

-- The bytes of a block from `offset_in_block` on, at most `actual_len` of them.
unfoldable pub serve_block : RemoteHttpSource → Bytes → ℕ → ℕ → Bytes → Read
unfolding range copy_into
serve_block s block offset_in_block actual_len out =
    let available = min (length block - offset_in_block) actual_len in
    range offset_in_block (offset_in_block + available) block >>= λ xs.
    copy_into available xs out >>= λ out'. done (available, out', s)

-- The slow path: fetch the whole block, keep it, and serve from it.
unfoldable pub fetch_block : RemoteHttpSource → ℕ → ℕ → ℕ → Bytes → Read
unfolding insert_block serve_block
fetch_block s block_idx offset_in_block actual_len out =
    let block_start = block_idx * s.cache.block_size in
    let block_end = min (block_start + s.cache.block_size) s.total_size in
    some (s.transport.fetch_range block_start (block_end - 1) (some s.total_size)) >>= λ fetched.
    let (final_block, cache) = insert_block s.cache block_idx fetched in
    serve_block (record s { cache = cache }) final_block offset_in_block actual_len out

-- One exact fetch for a read that crosses a block's end.
unfoldable pub fetch_across : RemoteHttpSource → ℕ → ℕ → Bytes → Read
unfolding copy_into
fetch_across s offset actual_len out =
    some (s.transport.fetch_range offset (offset + actual_len - 1) (some s.total_size))
    >>= λ fetched. copy_into actual_len fetched out >>= λ out'. done (actual_len, out', s)

-- The reads of a source that is no whole file.
unfoldable pub read_sparse : RemoteHttpSource → ℕ → ℕ → Bytes → Read
unfolding get_block serve_block fetch_across fetch_block
read_sparse s offset actual_len out =
    let block_idx = offset / s.cache.block_size in
    let offset_in_block = offset - block_idx * s.cache.block_size in
    if leb actual_len (s.cache.block_size - offset_in_block)
    then elim (get_block s.cache block_idx) [
      | none ↦ fetch_block s block_idx offset_in_block actual_len out
      | some block ↦
          if ltb offset_in_block (length block)
          then serve_block s block offset_in_block actual_len out
          else fetch_block s block_idx offset_in_block actual_len out
    ]
    else fetch_across s offset actual_len out

-- `out[..n]` written by the call, the rest of `out` behind it.
unfoldable pub after_complete : RemoteHttpSource → ℕ → ℕ → Bytes → Option (ℕ × Bytes) → Read
after_complete s offset actual_len out none = read_sparse s offset actual_len out
after_complete s offset actual_len out (some (n, front)) = done (n, front ++ drop actual_len out, s)

unfoldable pub read_range_into : RemoteHttpSource → ℕ → Bytes → Read
unfolding after_complete read_sparse copy_from_complete
read_range_into s offset out =
    if leb s.total_size offset || (length out == 0)
    then done (0, out, s)
    else (let actual_len = min (length out) (s.total_size - offset) in
        copy_from_complete s.cache offset (take actual_len out)
        >>= after_complete s offset actual_len out)

-- Up to `count` bytes.
unfoldable pub read_range : RemoteHttpSource → ℕ → ℕ → Outcome (Bytes × RemoteHttpSource)
read_range s offset count =
    read_range_into s offset (replicate count 0) >>= λ (n, buf, s'). done (take n buf, s')

-- Exactly `count` bytes.
unfoldable pub read_exact_range : RemoteHttpSource → ℕ → ℕ → Outcome (Bytes × RemoteHttpSource)
read_exact_range s offset count =
    if ltb s.total_size offset
    then some (err invalid_parameter)
    else if count == 0
    then done ([], s)
    else if ltb (s.total_size - offset) count
    then some (err invalid_parameter)
    else read_range s offset count >>= λ (buf, s').
        if length buf == count then done (buf, s') else some (err invalid_parameter)
