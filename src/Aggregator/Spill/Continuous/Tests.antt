-- ===== src/Aggregator/Spill/Continuous/Tests.antt =====
-- The state of an accumulator at concrete inputs:
-- crates/raster-h3-core/src/aggregator/multi_horizon/spill.rs.
use raster_h.Common.{
  ℕ, ◌≡◌, refl, some, List, [], ◌∷◌, ◌++◌, length, leb, ◌&&◌, if◌then◌else◌, ok, err,
  io_invalid_data, arith,
}
use raster_h.Aggregator.Spill.Continuous.{
  QuantileSketch, H3Accumulator, memory_bytes, write_state, read_state,
}
use raster_h.Aggregator.Spill.Continuous.RoundTrip.{
  IsBins, IsAccumulator, few_bins, read_state-write_state,
}

abbrev two_bins : List (ℕ × ℕ)
two_bins = (3, 5) ∷ (7, 1) ∷ []

abbrev sketch_of : List (ℕ × ℕ) → QuantileSketch
sketch_of bins = record { zero_count = 1; pos_bins = bins; neg_bins = []; total_count = 9 }

abbrev accumulator_of : List (ℕ × ℕ) → H3Accumulator
accumulator_of bins = record {
  sum = 4;
  count = 2;
  min = 1;
  max = 3;
  m2 = 2;
  sum_w2 = 2;
  quantiles = some (sketch_of bins);
}

two_bins-IsBins : IsBins two_bins
two_bins-IsBins = record {
  distinct = (refl, (refl, tt));
  bits = ((omega arith, omega arith), ((omega arith, omega arith), tt));
  few = omega arith;
}

nil-IsBins : IsBins []
nil-IsBins = record { distinct = tt; bits = tt; few = omega arith }

accumulator_of-IsAccumulator : IsAccumulator (accumulator_of two_bins)
accumulator_of-IsAccumulator = record {
  floats =
      (omega arith, (omega arith, (omega arith, (omega arith, (omega arith, (omega arith, tt))))));
  quantiles = record {
    floats = (omega arith, (omega arith, tt));
    pos = two_bins-IsBins;
    neg = nil-IsBins;
  };
}

read_state-write_state_example :
    read_state 56 80 16 length 1024 (write_state (accumulator_of two_bins) ++ 255 ∷ []) ≡ (
      if few_bins 1024 (some (sketch_of two_bins))
        && leb (memory_bytes 56 80 16 length (accumulator_of two_bins)) 1024
      then ok (accumulator_of two_bins, 255 ∷ [])
      else err io_invalid_data)
read_state-write_state_example =
    read_state-write_state 56 80 16 length 1024 (accumulator_of two_bins) (255 ∷ [])
      accumulator_of-IsAccumulator

abbrev eight_bins : List (ℕ × ℕ)
eight_bins = (0, 1) ∷ (1, 1) ∷ (2, 1) ∷ (3, 1) ∷ (4, 1) ∷ (5, 1) ∷ (6, 1) ∷ (7, 1) ∷ []

-- Eight bins cost 506 bytes, and a limit of 506 bytes allows seven.
test_memory : memory_bytes 56 80 16 length (accumulator_of eight_bins) ≡ 506
unfolding memory_bytes
test_memory = refl

test_refused :
    read_state 56 80 16 length 506 (write_state (accumulator_of eight_bins)) ≡ err io_invalid_data
unfolding read_state write_state
test_refused = refl
