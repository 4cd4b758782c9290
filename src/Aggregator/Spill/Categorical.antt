-- ===== src/Aggregator/Spill/Categorical.antt =====
-- The state of a CategoricalAccumulator in a run:
-- crates/raster-h3-core/src/aggregator/multi_horizon/spill.rs. Sizes and the capacity of the hash map
-- are parameters, as in Spill.Continuous.
pub mod RoundTrip
mod Tests
use raster_h.Common.{
  ℕ, zero, suc, ◌+◌, Option, none, some, List, [], ◌∷◌, ◌++◌, ltb, if◌then◌else◌, Bool, Result, ok,
  err, ◌>>=◌, io_invalid_data,
}
use raster_h.Common.Int.{ℤ}
use raster_h.Common.Bytes.{to_le_bytes, from_le_bytes, i64_bits, i64_of_bits}
use raster_h.Aggregator.Categorical.{
  FloatOps, CategoricalAccumulator, Classes, new, classes, unique_classes, update_weighted,
}
use raster_h.Aggregator.Spill.{write_u64, read_exact, read_u64, count}
use raster_h.Aggregator.Spill.Continuous.{table_bytes}

unfoldable pub write_classes : Classes → List ℕ
write_classes [] = []
write_classes ((k, v) ∷ cs) = to_le_bytes 8 (i64_bits k) ++ (write_u64 v ++ write_classes cs)

unfoldable pub write_categorical_state : CategoricalAccumulator → List ℕ
unfolding write_classes unique_classes classes
write_categorical_state a =
    write_u64 a.total_count ++ (write_u64 (unique_classes a) ++ write_classes (classes a))

module _ ⦃f : FloatOps⦄ where
  unfoldable pub read_classes :
      ℕ → CategoricalAccumulator → List ℕ → Result (CategoricalAccumulator × List ℕ)
  unfolding read_exact read_u64 update_weighted
  read_classes zero acc input = ok (acc, input)
  read_classes (suc n) acc input = do
    (k, after_key) ← read_exact 8 input
    (v, rest) ← read_u64 after_key
    read_classes n (update_weighted (i64_of_bits (from_le_bytes k)) v acc) rest

  module _ (self_size heap_size entry_size : ℕ) (capacity : Classes → ℕ) where
    unfoldable pub categorical_memory_bytes : CategoricalAccumulator → ℕ
    unfolding table_bytes
    categorical_memory_bytes a = self_size + elim a.heap_counts [
      | none ↦ 0
      | some heap ↦ heap_size + table_bytes entry_size (capacity heap)
    ]

    unfoldable pub read_categorical_state : ℕ → List ℕ → Result (CategoricalAccumulator × List ℕ)
    unfolding count read_classes categorical_memory_bytes
    read_categorical_state limit input = do
      (total, after_total) ← read_u64 input
      (n, entries) ← count limit after_total
      (read, rest) ← read_classes n new entries
      let acc : CategoricalAccumulator = record read { total_count = total }
      if ltb limit (categorical_memory_bytes acc) then err io_invalid_data else ok (acc, rest)
