-- ===== src/Aggregator/Categorical.antt =====
-- Class counts of a cell: crates/raster-h3-core/src/aggregator/categorical.rs. A float is its bits;
-- its arithmetic is the interface FloatOps. The hash map is an association list in the order
-- of its iteration.
pub mod Inline
pub mod Counts
pub mod Merge
mod Tests
use raster_h.Common.{
  ℕ, ◌≡◌, zero, suc, ◌+◌, Bool, true, false, Option, none, some, List, [], ◌∷◌, take, set,
  replicate, length, ltb, if◌then◌else◌,
}
use raster_h.Common.Int.{ℤ, pos, eqb_ℤ}
use raster_h.Common.Eq.{int_has_eq}
use raster_h.Common.Maps.{lookup, insert, insert_all}

abbrev pub inline_capacity : ℕ
inline_capacity = 16

abbrev pub Classes : Type 0
Classes = List (ℤ × ℕ)

pub record CategoricalAccumulator : Type 0 where
  pub inline_entries : Classes
  pub inline_len : ℕ
  pub heap_counts : Option Classes
  pub total_count : ℕ

abbrev pub new : CategoricalAccumulator
new = record {
  inline_entries = replicate inline_capacity (pos 0, 0);
  inline_len = 0;
  heap_counts = none;
  total_count = 0;
}

-- What `for_each_class` visits, in order.
unfoldable pub classes : CategoricalAccumulator → Classes
classes a = elim a.heap_counts [ some heap ↦ heap | none ↦ take a.inline_len a.inline_entries ]

unfoldable pub unique_classes : CategoricalAccumulator → ℕ
unique_classes a = elim a.heap_counts [ some heap ↦ length heap | none ↦ a.inline_len ]

abbrev pub or_zero : Option ℕ → ℕ
or_zero none = 0
or_zero (some w) = w

-- The loop of `get_class_count` over the slots in use.
unfoldable pub inline_count : ℕ → Classes → ℤ → ℕ
inline_count zero entries category = 0
inline_count (suc len) [] category = 0
inline_count (suc len) ((c, w) ∷ entries) category =
    if eqb_ℤ c category then w else inline_count len entries category

unfoldable pub get_class_count : CategoricalAccumulator → ℤ → ℕ
unfolding inline_count
get_class_count a category = elim a.heap_counts [
  | some heap ↦ or_zero (lookup category heap)
  | none ↦ inline_count a.inline_len a.inline_entries category
]

-- The arithmetic of f64 on bits: a sum, `w <= 0.0` and `w == 0.0`. Nothing is lost in 0.0 + w.
pub record FloatOps : Type 0 where
  pub add : ℕ → ℕ → ℕ
  pub not_positive : ℕ → Bool
  pub is_zero : ℕ → Bool
  pub zero_add : (w : ℕ) → not_positive w ≡ false → add 0 w ≡ w

module _ ⦃f : FloatOps⦄ where
  -- The loop over the slots in use: the slots with the weight added, where one has the class.
  unfoldable pub add_inline : ℕ → Classes → ℤ → ℕ → Option Classes
  add_inline zero entries category weight = none
  add_inline (suc len) [] category weight = none
  add_inline (suc len) ((c, w) ∷ entries) category weight =
      let later = add_inline len entries category weight in
      if eqb_ℤ c category
      then some ((c, f.add w weight) ∷ entries)
      else elim later [ none ↦ none | some rest ↦ some ((c, w) ∷ rest) ]

  -- `*heap.entry(category).or_insert(0.0) += weight`
  unfoldable pub add_heap : ℤ → ℕ → Classes → Classes
  add_heap category weight heap =
      insert category (f.add (or_zero (lookup category heap)) weight) heap

  -- The slots and the heap after a class that no slot has.
  unfoldable pub add_class : ℤ → ℕ → CategoricalAccumulator → CategoricalAccumulator
  add_class category weight a =
      if ltb a.inline_len inline_capacity
      then record a {
        inline_entries = set a.inline_entries a.inline_len (category, weight);
        inline_len = a.inline_len + 1;
      }
      else record a {
        heap_counts =
            some (insert category weight (insert_all (take inline_capacity a.inline_entries) []));
      }

  unfoldable pub update_weighted : ℤ → ℕ → CategoricalAccumulator → CategoricalAccumulator
  unfolding add_inline add_heap add_class
  update_weighted category weight a =
      let total = f.add a.total_count weight in
      if f.not_positive weight then a else elim a.heap_counts [
        | some heap ↦ record a {
          heap_counts = some (add_heap category weight heap);
          total_count = total;
        }
        | none ↦ elim (add_inline a.inline_len a.inline_entries category weight) [
          | some entries ↦ record a { inline_entries = entries; total_count = total }
          | none ↦ add_class category weight (record a { total_count = total })
        ]
      ]

  unfoldable pub update_all : Classes → CategoricalAccumulator → CategoricalAccumulator
  unfolding update_weighted
  update_all [] a = a
  update_all ((c, w) ∷ cs) a = update_all cs (update_weighted c w a)

  unfoldable pub merge : CategoricalAccumulator → CategoricalAccumulator → CategoricalAccumulator
  unfolding update_all classes
  merge a other = if f.is_zero other.total_count then a else update_all (classes other) a
