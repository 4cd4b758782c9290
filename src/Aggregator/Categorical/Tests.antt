-- ===== src/Aggregator/Categorical/Tests.antt =====
-- Class counts at concrete inputs: crates/raster-h3-core/src/aggregator/categorical.rs. Weights are
-- whole numbers here.
use raster_h.Common.{
  ℕ, ◌+◌, ◌≡◌, refl, Bool, false, none, [], ◌∷◌, replicate, ◌==◌, if◌then◌else◌, arith,
}
use raster_h.Common.Int.{pos}
use raster_h.Common.Eq.{int_has_eq}
use raster_h.Common.Maps.{lookup}
use raster_h.Aggregator.Categorical.{
  FloatOps, CategoricalAccumulator, Classes, classes, get_class_count, update_weighted, merge,
}
use raster_h.Aggregator.Categorical.Counts.{IsCategorical}
use raster_h.Aggregator.Categorical.Merge.{plus, get_class_count-merge}

abbrev sum : ℕ → ℕ → ℕ
sum a b = a + b

abbrev no_weight : ℕ → Bool
no_weight w = w == 0

zero_sum : (w : ℕ) → no_weight w ≡ false → sum 0 w ≡ w
zero_sum w h = omega arith

instance abbrev whole_numbers : FloatOps
whole_numbers = record {
  add = sum;
  not_positive = no_weight;
  is_zero = no_weight;
  zero_add = zero_sum;
}

abbrev sixteen_classes : Classes
sixteen_classes =
    (pos 0, 1)
    ∷ (pos 1, 1)
    ∷ (pos 2, 1)
    ∷ (pos 3, 1)
    ∷ (pos 4, 1)
    ∷ (pos 5, 1)
    ∷ (pos 6, 1)
    ∷ (pos 7, 1)
    ∷ (pos 8, 1)
    ∷ (pos 9, 1)
    ∷ (pos 10, 1)
    ∷ (pos 11, 1)
    ∷ (pos 12, 1)
    ∷ (pos 13, 1)
    ∷ (pos 14, 1)
    ∷ (pos 15, 1)
    ∷ []

abbrev full : CategoricalAccumulator
full = record {
  inline_entries = sixteen_classes;
  inline_len = 16;
  heap_counts = none;
  total_count = 16;
}

full-IsCategorical : IsCategorical full
unfolding classes
full-IsCategorical = record {
  slots = (refl, omega arith);
  distinct = (
    refl,
    (
      refl,
      (
        refl,
        (
          refl,
          (
            refl,
            (
              refl,
              (refl, (refl, (refl, (refl, (refl, (refl, (refl, (refl, (refl, (refl, tt)))))))))),
            ),
          ),
        ),
      ),
    ),
  );
}

abbrev one_class : CategoricalAccumulator
one_class = record {
  inline_entries = (pos 3, 4) ∷ replicate 15 (pos 0, 0);
  inline_len = 1;
  heap_counts = none;
  total_count = 4;
}

one_class-IsCategorical : IsCategorical one_class
unfolding classes
one_class-IsCategorical = record { slots = (refl, omega arith); distinct = (refl, tt) }

get_class_count-merge_example : get_class_count (merge full one_class) (pos 3) ≡ (
    if no_weight 4
    then get_class_count full (pos 3)
    else plus (get_class_count full (pos 3)) (lookup (pos 3) (classes one_class)))
unfolding classes
get_class_count-merge_example =
    get_class_count-merge full one_class (pos 3) full-IsCategorical one_class-IsCategorical
      (refl, tt)

test_spilled : get_class_count (update_weighted (pos 16) 5 full) (pos 16) ≡ 5
unfolding get_class_count update_weighted
test_spilled = refl
