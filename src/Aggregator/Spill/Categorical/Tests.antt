-- ===== src/Aggregator/Spill/Categorical/Tests.antt =====
-- The state of a categorical accumulator at concrete inputs:
-- crates/raster-h3-core/src/aggregator/multi_horizon/spill.rs. Weights are whole numbers here.
use raster_h.Common.{
  ℕ, ◌+◌, ◌/◌, ◌≡◌, refl, Bool, false, some, [], ◌∷◌, ◌++◌, replicate, ◌==◌, leb, ◌&&◌,
  if◌then◌else◌, length, ok, err, io_invalid_data, arith,
}
use raster_h.Common.Int.{pos, negsuc}
use raster_h.Aggregator.Categorical.{FloatOps, CategoricalAccumulator, classes, unique_classes}
use raster_h.Aggregator.Spill.Categorical.{
  write_categorical_state, categorical_memory_bytes, read_categorical_state,
}
use raster_h.Aggregator.Spill.Categorical.RoundTrip.{
  IsCoded, rebuilt, read_categorical_state-write_categorical_state,
}

abbrev sum : ℕ → ℕ → ℕ
sum a b = a + b

abbrev no_weight : ℕ → Bool
no_weight w = w == 0

zero_sum : (w : ℕ) → no_weight w ≡ false → sum 0 w ≡ w
zero_sum w h = omega arith

instance abbrev whole_numbers : FloatOps
whole_numbers = record {
  add = sum;
  not_positive = no_weight;
  is_zero = no_weight;
  zero_add = zero_sum;
}

abbrev on_heap : CategoricalAccumulator
on_heap = record {
  inline_entries = replicate 16 (pos 0, 0);
  inline_len = 16;
  heap_counts = some ((pos 3, 4) ∷ (negsuc 6, 1) ∷ []);
  total_count = 5;
}

on_heap-IsCoded : IsCoded on_heap
unfolding classes unique_classes
on_heap-IsCoded = record {
  valid = record { slots = (refl, omega arith); distinct = (refl, (refl, tt)) };
  positive = (refl, (refl, tt));
  coded = ((omega arith, omega arith), ((omega arith, omega arith), tt));
  total_bits = omega arith;
  few = omega arith;
}

read_categorical_state-write_categorical_state_example :
    (read_categorical_state 288 32 16 length 1024 (write_categorical_state on_heap ++ 7 ∷ []) ≡ (
      if leb (unique_classes on_heap) (1024 / 64)
        && leb (categorical_memory_bytes 288 32 16 length (rebuilt on_heap)) 1024
      then ok (rebuilt on_heap, 7 ∷ [])
      else err io_invalid_data))
    × (classes (rebuilt on_heap) ≡ classes on_heap)
    × ((rebuilt on_heap).total_count ≡ 5)
read_categorical_state-write_categorical_state_example =
    read_categorical_state-write_categorical_state 288 32 16 length 1024 on_heap (7 ∷ [])
      on_heap-IsCoded
