-- ===== src/Raster/Reader.antt =====
-- `HttpRangeReader` of crates/raster-h3-core/src/raster/http_range.rs: `Read` and `Seek` over a
-- remote source. An error keeps its variant, and the InvalidInput of io is the invalid-parameter
-- error; sums of i64 wrap around.
use raster_h.Raster.Remote.{Bytes, Outcome, ◌>>=◌, done, RemoteHttpSource, Read, read_range_into}
use raster_h.Raster.Remote.Slices.{slice, drop-take}
use raster_h.Raster.Remote.Coherent.{IsCoherent}
use raster_h.Raster.Remote.Reads.{Delivers}
use raster_h.Raster.Remote.Exact.{Failed, read_range_into-Delivers}
use raster_h.Common.Int.{ℤ, pos, negsuc, pos_part, neg_part}
use raster_h.Common.Bytes.{i64_bits, i64_of_bits}
use raster_h.Common.{
  ℕ, ◌+◌, ◌-◌, ◌%◌, ◌^◌, ◌<◌, ◌≡◌, refl, sym, ap, ◌∙◌, subst, ◌||◌, none, some, [], ◌++◌,
  append-nil, length, take, drop, length-take, min, leb, ◌==◌, if◌then◌else◌, if-elim, Result, ok,
  err, invalid_parameter, arith,
}

pub record HttpRangeReader : Type 0 where
  pub source : RemoteHttpSource
  pub cursor : ℕ

pub data SeekFrom : Type 0 where
  start : ℕ → SeekFrom
  current : ℤ → SeekFrom
  end : ℤ → SeekFrom

unfoldable pub new : RemoteHttpSource → HttpRangeReader
new source = record { source = source; cursor = 0 }

-- The count, the buffer and the reader.
unfoldable pub read : HttpRangeReader → Bytes → Outcome (ℕ × Bytes × HttpRangeReader)
read r buf =
    if leb r.source.total_size r.cursor || (length buf == 0)
    then done (0, buf, r)
    else (let to_read = min (length buf) (r.source.total_size - r.cursor) in
        read_range_into r.source r.cursor (take to_read buf) >>= λ (n, front, source).
        done (n, front ++ drop to_read buf, record { source = source; cursor = r.cursor + n }))

-- `a as i64 + delta`
unfoldable pub target_of : ℕ → ℤ → ℤ
target_of a delta = i64_of_bits ((a + i64_bits delta) % 2 ^ 64)

unfoldable pub moved : ℤ → Result ℕ
moved (pos n) = ok n
moved (negsuc n) = err invalid_parameter

unfoldable pub new_cursor : HttpRangeReader → SeekFrom → Result ℕ
unfolding target_of moved
new_cursor r (start offset) = ok offset
new_cursor r (current delta) = moved (target_of r.cursor delta)
new_cursor r (end delta) = moved (target_of r.source.total_size delta)

unfoldable pub seek_to : HttpRangeReader → Result ℕ → Result ℕ × HttpRangeReader
seek_to r (err e) = (err e, r)
seek_to r (ok cursor) = (ok cursor, record r { cursor = cursor })

unfoldable pub seek : HttpRangeReader → SeekFrom → Result ℕ × HttpRangeReader
unfolding seek_to new_cursor
seek r p = seek_to r (new_cursor r p)

-- What a read of the file from the cursor on answers.
abbrev pub ReadsOn :
    Bytes → HttpRangeReader → Bytes → Outcome (ℕ × Bytes × HttpRangeReader) → Type 0
ReadsOn file r buf none = ⊥
ReadsOn file r buf (some (err e)) = Failed file r.source e
ReadsOn file r buf (some (ok (n, buf', r'))) =
    (n ≡ min (length buf) (length file - r.cursor))
    × (buf' ≡ slice file r.cursor n ++ drop n buf)
    × (r'.cursor ≡ r.cursor + n)
    × IsCoherent file r'.source

-- On a source that is coherent with the file a read never panics: it answers as many bytes as the
-- buffer takes and the file has from the cursor on, puts them at the buffer's front, keeps the
-- rest of it, moves the cursor behind them, and leaves a coherent source; or it fails with what
-- the transport answered for a range inside the file.
pub read-ReadsOn :
    (file : Bytes) (r : HttpRangeReader) (buf : Bytes)
    → IsCoherent file r.source
    → ReadsOn file r buf (read r buf)
unfolding read
read-ReadsOn file r buf c =
    if-elim (ReadsOn file r buf) (leb r.source.total_size r.cursor || (length buf == 0)) _ _
      (λ over.
        let none_left : 0 ≡ min (length buf) (length file - r.cursor) =
          ground (arith, over, c.sized) in
        (none_left, refl, omega arith, c))
      (λ more.
        let n = min (length buf) (r.source.total_size - r.cursor) in
        let count : n ≡ min (length buf) (length file - r.cursor) =
          ap (λ t. min (length buf) (t - r.cursor)) c.sized in
        let room : length (take n buf) ≡ n = omega (arith, length-take n buf) in
        let all : min (length (take n buf)) (length file - r.cursor) ≡ n =
          omega (arith, room, count) in
        go n count (read_range_into r.source r.cursor (take n buf)) (
          subst
            (λ k.
              Delivers file r.source r.cursor k (take n buf)
                (read_range_into r.source r.cursor (take n buf)))
            all (read_range_into-Delivers file r.source c r.cursor (take n buf))))
  where
    nothing : (n : ℕ) → drop n (take n buf) ≡ []
    nothing n =
        drop-take n n buf ∙ ap (λ m. take m (drop n buf)) (let z : n - n ≡ 0 = omega arith in z)

    go :
        (n : ℕ)
        → n ≡ min (length buf) (length file - r.cursor)
        → (d : Read) → Delivers file r.source r.cursor n (take n buf) d
        → ReadsOn file r buf (
            d >>= λ (k, front, source).
            done (k, front ++ drop n buf, record { source = source; cursor = r.cursor + k }))
    go n count none h = absurd h
    go n count (some (err e)) h = h
    go n count (some (ok (k, front, source))) (same, bytes, kept, t) = (
      same ∙ count,
      ap (λ f. f ++ drop n buf)
            (bytes
              ∙ ap (λ x. slice file r.cursor n ++ x) (nothing n)
              ∙ append-nil (slice file r.cursor n))
          ∙ ap (λ m. slice file r.cursor m ++ drop m buf) (sym same),
      refl,
      kept,
    )

-- The place that a delta names, from `a` on.
abbrev pub Lands : ℕ → ℤ → Result ℕ → Type 0
Lands a delta (ok n) = n + neg_part delta ≡ a + pos_part delta
Lands a delta (err e) = (a < neg_part delta) × (e ≡ invalid_parameter)

-- What a seek answers, and the reader behind it.
abbrev pub Seeks : HttpRangeReader → ℕ → ℤ → Result ℕ × HttpRangeReader → Type 0
Seeks r a delta (ok n, r') = Lands a delta (ok n) × (r' ≡ record r { cursor = n })
Seeks r a delta (err e, r') = Lands a delta (err e) × (r' ≡ r)
