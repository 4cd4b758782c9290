-- ===== src/Aggregator/Spill/Continuous/Statistics.antt =====
-- H3Accumulator without a sketch as an accumulator that may be spilled:
-- crates/raster-h3-core/src/aggregator/multi_horizon/spill.rs.
use raster_h.Common.{
  ℕ, ◌≤◌, ◌≡◌, refl, ap, ap₂, ◌∙◌, true, Option, none, some, List, ◌++◌, leb, ◌&&◌, if◌then◌else◌,
  ok, err, io_invalid_data, arith,
}
use raster_h.Aggregator.Spill.{SpillAccumulator}
use raster_h.Aggregator.Spill.Continuous.{
  QuantileSketch, H3Accumulator, memory_bytes, write_state, read_state,
}
use raster_h.Aggregator.Spill.Continuous.RoundTrip.{IsAccumulator, few_bins, read_state-write_state}

-- An accumulator that tracks no quantiles.
abbrev pub IsStatistics : H3Accumulator → Type 0
IsStatistics a = IsAccumulator a × (a.quantiles ≡ none)

-- The sums of floats in `merge` are a parameter, which keeps such accumulators.
module _ (self_size sketch_size entry_size : ℕ) (capacity : List (ℕ × ℕ) → ℕ)
    (merge : H3Accumulator → H3Accumulator → H3Accumulator)
    (keeps : (a b : H3Accumulator)
      → IsStatistics a
      → IsStatistics b
      → IsStatistics (merge a b)) where
  few : (limit : ℕ) (q : Option QuantileSketch) → q ≡ none → few_bins limit q ≡ true
  unfolding few_bins
  few limit none h = refl
  few limit (some q) h = cc

  pub read_back :
      (limit : ℕ) (a : H3Accumulator) (rest : List ℕ)
      → IsStatistics a
      → memory_bytes self_size sketch_size entry_size capacity a ≤ limit
      → read_state self_size sketch_size entry_size capacity limit (write_state a ++ rest)
        ≡ ok (a, rest)
  read_back limit a rest h small =
      let within : leb (memory_bytes self_size sketch_size entry_size capacity a) limit ≡ true =
        ground arith in
      read_state-write_state self_size sketch_size entry_size capacity limit a rest h.0
      ∙ ap (λ t. if t then ok (a, rest) else err io_invalid_data)
          (ap₂ ◌&&◌ (few limit a.quantiles h.1) within)

  abbrev pub statistics : SpillAccumulator H3Accumulator
  statistics = record {
    write_state = write_state;
    read_state = read_state self_size sketch_size entry_size capacity;
    memory_bytes = memory_bytes self_size sketch_size entry_size capacity;
    merge = merge;
    IsState = IsStatistics;
    merge-IsState = keeps;
    read_state-write_state = read_back;
  }
