-- ===== src/Aggregator/Tests.antt =====
-- The theorems on remap.rs and multi_horizon/lifecycle.rs of crates/raster-h3-core/src/aggregator,
-- applied.
use raster_h.Aggregator.Remap.{drop_unmapped, RemapRule, exact, range, new, remap}
use raster_h.Aggregator.Remap.Rules.{classify, remap-new}
use raster_h.Aggregator.Lifecycle.{
  running, in_state, ensure_runnable, OutputBuffer, take_batch, drain_into,
}
use raster_h.Aggregator.Lifecycle.Latched.{latches, finishes, after, verdict, ensure_runnable-after}
use raster_h.Aggregator.Lifecycle.Buffer.{
  items_of, IsCounted, take_batch-lem, drain_into-take_batch,
}
use raster_h.Common.{ℕ, ◌≡◌, refl, none, some, List, [], ◌∷◌, false, take, drop, min, map}
use raster_h.Common.Int.{pos}

abbrev fuel_rules : List RemapRule
fuel_rules =
    exact (pos 91) none
    ∷ range (pos 105) (pos 101) (some (pos 1))
    ∷ exact (pos 91) (some (pos 2))
    ∷ []

remap-new_example :
    remap (new fuel_rules drop_unmapped) (pos 103) ≡ classify fuel_rules drop_unmapped (pos 103)
remap-new_example = remap-new fuel_rules drop_unmapped (pos 103)

ensure_runnable-after_example :
    ensure_runnable (after (finishes ∷ latches (1 ∷ []) ∷ latches (2 ∷ []) ∷ []) (in_state running))
    ≡ verdict false (finishes ∷ latches (1 ∷ []) ∷ latches (2 ∷ []) ∷ [])
ensure_runnable-after_example =
    ensure_runnable-after (finishes ∷ latches (1 ∷ []) ∷ latches (2 ∷ []) ∷ [])

abbrev three_rows : OutputBuffer ℕ
three_rows = record { records = (10, 8) ∷ (20, 16) ∷ (30, 8) ∷ []; estimated_bytes = 32 }

take_batch-lem_example :
    ((take_batch 2 three_rows).0 ≡ items_of (take (min 2 3) three_rows.records))
    × ((take_batch 2 three_rows).1.records ≡ drop (min 2 3) three_rows.records)
    × IsCounted (take_batch 2 three_rows).1
take_batch-lem_example = take_batch-lem 2 three_rows refl

drain_into-take_batch_example :
    ((drain_into 2 three_rows).0 ≡ min 2 3)
    × (map (λ c. c.1) (drain_into 2 three_rows).1 ≡ (take_batch 2 three_rows).0)
    × ((drain_into 2 three_rows).2 ≡ (take_batch 2 three_rows).1)
drain_into-take_batch_example = drain_into-take_batch 2 three_rows
