-- ===== src/Aggregator/Spill/Continuous.antt =====
-- The state of an H3Accumulator in a run: crates/raster-h3-core/src/aggregator/multi_horizon/spill.rs,
-- with the structs of aggregator/accumulator.rs and aggregator/quantiles.rs. A float and an i32 are
-- their bits, a hash map is an association list in the order of its iteration. What the compiler and
-- the hash map decide, sizes and capacities, is a parameter.
pub mod RoundTrip
pub mod Statistics
mod Tests
use raster_h.Common.{
  ℕ, zero, suc, ◌+◌, ◌-◌, ◌*◌, ◌/◌, ◌^◌, Bool, true, false, Option, none, some, List, [], ◌∷◌, ◌++◌,
  length, ltb, leb, ◌==◌, ◌&&◌, if◌then◌else◌, Result, ok, err, ◌>>=◌, io_invalid_data,
}
use raster_h.Common.Eq.{HasEq, nat_has_eq}
use raster_h.Common.Maps.{insert}
use raster_h.Common.Bytes.{to_le_bytes, from_le_bytes}
use raster_h.Aggregator.Spill.{write_u64, read_exact, read_u64, count}

pub record QuantileSketch : Type 0 where
  pub zero_count : ℕ
  pub pos_bins : List (ℕ × ℕ)
  pub neg_bins : List (ℕ × ℕ)
  pub total_count : ℕ

pub record H3Accumulator : Type 0 where
  pub sum : ℕ
  pub count : ℕ
  pub min : ℕ
  pub max : ℕ
  pub m2 : ℕ
  pub sum_w2 : ℕ
  pub quantiles : Option QuantileSketch

-- A product that stays at the largest usize.
unfoldable pub saturating_mul : ℕ → ℕ → ℕ
saturating_mul a b = if ltb (2 ^ 64 - 1) (a * b) then 2 ^ 64 - 1 else a * b

unfoldable pub table_bytes : ℕ → ℕ → ℕ
unfolding saturating_mul
table_bytes entry_size capacity =
    if capacity == 0 then 0 else saturating_mul (capacity + 1) (2 * (entry_size + 1)) + 64

-- The loops of `write_state` over floats and over bins.
unfoldable pub write_floats : List ℕ → List ℕ
write_floats [] = []
write_floats (v ∷ vs) = write_u64 v ++ write_floats vs

unfoldable pub write_entries : List (ℕ × ℕ) → List ℕ
write_entries [] = []
write_entries ((k, v) ∷ bins) = to_le_bytes 4 k ++ (write_u64 v ++ write_entries bins)

unfoldable pub write_bins : List (ℕ × ℕ) → List ℕ
unfolding write_entries
write_bins bins = write_u64 (length bins) ++ write_entries bins

unfoldable pub write_sketch : Option QuantileSketch → List ℕ
unfolding write_bins write_floats
write_sketch none = write_u64 0
write_sketch (some q) =
    write_u64 1
    ++ (write_floats (q.zero_count ∷ q.total_count ∷ [])
        ++ (write_bins q.pos_bins ++ write_bins q.neg_bins))

unfoldable pub write_state : H3Accumulator → List ℕ
unfolding write_sketch write_floats
write_state a =
    write_floats (a.sum ∷ a.count ∷ a.sum_w2 ∷ a.min ∷ a.max ∷ a.m2 ∷ [])
    ++ write_sketch a.quantiles

unfoldable pub read_entries : ℕ → List (ℕ × ℕ) → List ℕ → Result (List (ℕ × ℕ) × List ℕ)
unfolding read_exact read_u64
read_entries zero bins input = ok (bins, input)
read_entries (suc n) bins input = do
  (k, after_key) ← read_exact 4 input
  (v, rest) ← read_u64 after_key
  read_entries n (insert (from_le_bytes k) v bins) rest

unfoldable pub read_bins : ℕ → List ℕ → Result (List (ℕ × ℕ) × List ℕ)
unfolding count read_entries
read_bins limit input = do (n, entries) ← count limit input; read_entries n [] entries

unfoldable pub read_sketch : ℕ → List ℕ → Result (QuantileSketch × List ℕ)
unfolding read_bins
read_sketch limit input = do
  (zero_count, i1) ← read_u64 input
  (total_count, i2) ← read_u64 i1
  (pos_bins, i3) ← read_bins limit i2
  (neg_bins, rest) ← read_bins limit i3
  ok (
    record {
      zero_count = zero_count;
      pos_bins = pos_bins;
      neg_bins = neg_bins;
      total_count = total_count;
    },
    rest,
  )

unfoldable pub read_quantiles : ℕ → List ℕ → Result (Option QuantileSketch × List ℕ)
unfolding read_sketch
read_quantiles limit input = do
  (marker, more) ← read_u64 input
  elim (marker == 0) [
    | true ↦ ok (none, more)
    | false ↦ elim (marker == 1) [
      | true ↦ do (q, rest) ← read_sketch limit more; ok (some q, rest)
      | false ↦ err io_invalid_data
    ]
  ]

module _ (self_size sketch_size entry_size : ℕ) (capacity : List (ℕ × ℕ) → ℕ) where
  unfoldable pub heap_bytes : H3Accumulator → ℕ
  unfolding table_bytes
  heap_bytes a = elim a.quantiles [
    | none ↦ 0
    | some q ↦
        sketch_size
        + table_bytes entry_size (capacity q.pos_bins)
        + table_bytes entry_size (capacity q.neg_bins)
  ]

  unfoldable pub memory_bytes : H3Accumulator → ℕ
  unfolding heap_bytes
  memory_bytes a = self_size + heap_bytes a

  unfoldable pub read_state : ℕ → List ℕ → Result (H3Accumulator × List ℕ)
  unfolding read_quantiles memory_bytes
  read_state limit input = do
    (sum, i1) ← read_u64 input
    (count, i2) ← read_u64 i1
    (sum_w2, i3) ← read_u64 i2
    (min, i4) ← read_u64 i3
    (max, i5) ← read_u64 i4
    (m2, i6) ← read_u64 i5
    (quantiles, rest) ← read_quantiles limit i6
    let acc : H3Accumulator = record {
      sum = sum;
      count = count;
      min = min;
      max = max;
      m2 = m2;
      sum_w2 = sum_w2;
      quantiles = quantiles;
    }
    if ltb limit (memory_bytes acc) then err io_invalid_data else ok (acc, rest)
