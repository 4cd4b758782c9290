-- ===== src/Aggregator/Spill/Categorical/RoundTrip.antt =====
-- Reading back the state of a CategoricalAccumulator:
-- crates/raster-h3-core/src/aggregator/multi_horizon/spill.rs.
use raster_h.Common.{
  ℕ, ◌/◌, ◌^◌, ◌<◌, ◌≤◌, ◌≡◌, refl, ap, sym, ◌∙◌, subst, Option, none, some, List, [], ◌∷◌, ◌++◌,
  leb, ◌&&◌, if◌then◌else◌, Bool, true, false, Result, ok, err, io_invalid_data, All, append-nil,
  append_assoc, length, length-take, take, arith,
}
use raster_h.Common.Int.{IsI64}
use raster_h.Common.Eq.{int_has_eq}
use raster_h.Common.Maps.{Distinct, lookup-Distinct, insert_new}
use raster_h.Common.Bytes.{
  to_le_bytes, from_le_bytes-u64, length-to_le_bytes, i64_bits, i64_of_bits, i64_bits-lt,
  i64_of_bits-i64_bits,
}
use raster_h.Aggregator.Categorical.{
  FloatOps, CategoricalAccumulator, Classes, new, classes, unique_classes, update_weighted,
  update_all,
}
use raster_h.Aggregator.Categorical.Counts.{
  IsCategorical, update_weighted-Updates, update_weighted-IsCategorical, add_to_missing,
}
use raster_h.Aggregator.Categorical.Merge.{Positive}
use raster_h.Aggregator.Spill.{write_u64, read_u64, count}
use raster_h.Aggregator.Spill.Records.{read_exact-append, read_u64-write_u64}
use raster_h.Aggregator.Spill.Continuous.RoundTrip.{bind, refused_above, count-write_u64}
use raster_h.Aggregator.Spill.Categorical.{
  write_classes, write_categorical_state, read_classes, categorical_memory_bytes,
  read_categorical_state,
}

unique_classes-classes :
    (a : CategoricalAccumulator)
    → a.inline_len ≤ length a.inline_entries
    → unique_classes a ≡ length (classes a)
unfolding unique_classes classes
unique_classes-classes a h = of_heap a.heap_counts
  where
    of_heap :
        (heap : Option Classes)
        → elim heap as (λ _. ℕ) [ some m ↦ length m | none ↦ a.inline_len ]
          ≡ length (elim heap as (λ _. Classes) [
            | some m ↦ m
            | none ↦ take a.inline_len a.inline_entries
          ])
    of_heap (some m) = refl
    of_heap none = let e = length-take a.inline_len a.inline_entries in ground (arith, e)

-- A class as the state holds it: an i64 and the bits of an f64.
abbrev pub Coded : Classes → Type 0
Coded = All (λ e. IsI64 e.0 × (e.1 < 2 ^ 64))

module _ ⦃f : FloatOps⦄ where
  read_classes-write_classes :
      (cs : Classes) (acc : CategoricalAccumulator) (rest : List ℕ)
      → Coded cs
      → read_classes (length cs) acc (write_classes cs ++ rest) ≡ ok (update_all cs acc, rest)
  unfolding read_classes write_classes update_all
  read_classes-write_classes [] acc rest h = refl
  read_classes-write_classes ((k, v) ∷ cs) acc rest h =
      bind
        (read_exact-append 8 (to_le_bytes 8 (i64_bits k))
          (write_u64 v ++ (write_classes cs ++ rest)) (length-to_le_bytes 8 (i64_bits k)))
        _
      ∙ bind (read_u64-write_u64 v (write_classes cs ++ rest) ((h.0).1)) _
      ∙ ap (λ i. read_classes (length cs) (update_weighted i v acc) (write_classes cs ++ rest))
          (ap i64_of_bits (from_le_bytes-u64 (i64_bits k) (i64_bits-lt k))
            ∙ i64_of_bits-i64_bits k ((h.0).0))
      ∙ read_classes-write_classes cs (update_weighted k v acc) rest h.1

  -- Classes that the accumulator does not have are kept as they come.
  classes-update_all :
      (cs : Classes) (a : CategoricalAccumulator)
      → Distinct (classes a ++ cs)
      → Positive cs
      → IsCategorical a
      → (classes (update_all cs a) ≡ classes a ++ cs) × IsCategorical (update_all cs a)
  unfolding update_all
  classes-update_all [] a d p i = (sym (append-nil (classes a)), i)
  classes-update_all ((c, w) ∷ cs) a d p i =
      let a' = update_weighted c w a in
      let missing = lookup-Distinct c w (classes a) cs d in
      let new_class =
        (update_weighted-Updates c w a p.0 i).1
        ∙ add_to_missing c w (classes a) missing
        ∙ insert_new c w (classes a) missing in
      let all = ap (λ m. m ++ cs) new_class ∙ append_assoc (classes a) ((c, w) ∷ []) cs in
      let (same, valid) =
        classes-update_all cs a' (subst Distinct (sym all) d) p.1
          (update_weighted-IsCategorical c w a i) in
      (same ∙ all, valid)

  new-IsCategorical : IsCategorical new
  unfolding classes
  new-IsCategorical = record { slots = (refl, omega arith); distinct = tt }

  -- The accumulator that is read back: the classes one after another, and the total.
  abbrev pub rebuilt : CategoricalAccumulator → CategoricalAccumulator
  rebuilt a = record (update_all (classes a) new) { total_count = a.total_count }

  -- An accumulator that a run may hold.
  pub record IsCoded (a : CategoricalAccumulator) : Type 0 where
    pub valid : IsCategorical a
    pub positive : Positive (classes a)
    pub coded : Coded (classes a)
    pub total_bits : a.total_count < 2 ^ 64
    pub few : unique_classes a < 2 ^ 64

  rebuilt-classes : (a : CategoricalAccumulator) → IsCoded a → classes (rebuilt a) ≡ classes a
  unfolding classes
  rebuilt-classes a h =
      (classes-update_all (classes a) new ((h.valid).distinct) h.positive new-IsCategorical).0

  module _ (self_size heap_size entry_size : ℕ) (capacity : Classes → ℕ) where
    abbrev bytes_of : CategoricalAccumulator → ℕ
    bytes_of = categorical_memory_bytes self_size heap_size entry_size capacity

    abbrev read_state_of : ℕ → List ℕ → Result (CategoricalAccumulator × List ℕ)
    read_state_of = read_categorical_state self_size heap_size entry_size capacity

    read_categorical_state-parts :
        (limit total n : ℕ) (input i1 i2 rest : List ℕ) (read : CategoricalAccumulator) (few : Bool)
        → read_u64 input ≡ ok (total, i1)
        → count limit i1 ≡ (if few then ok (n, i2) else err io_invalid_data)
        → read_classes n new i2 ≡ ok (read, rest)
        → read_state_of limit input ≡ (
            if few && leb (bytes_of (record read { total_count = total })) limit
            then ok (record read { total_count = total }, rest)
            else err io_invalid_data)
    unfolding read_categorical_state
    read_categorical_state-parts limit total n input i1 i2 rest read true p q r =
        rw (read_categorical_state, p, q, r)
          (refused_above limit (bytes_of (record read { total_count = total })) (ok (_, rest)))
    read_categorical_state-parts limit total n input i1 i2 rest read false p q r =
        rw (read_categorical_state, p, q) refl

    -- The state of a categorical accumulator is read back as its classes and its total where the
    -- classes are at most limit / 64 and the memory of what is read is within the limit; else it is
    -- refused as invalid data.
    pub read_categorical_state-write_categorical_state :
        (limit : ℕ) (a : CategoricalAccumulator) (rest : List ℕ)
        → IsCoded a
        → (read_state_of limit (write_categorical_state a ++ rest) ≡ (
            if leb (unique_classes a) (limit / 64) && leb (bytes_of (rebuilt a)) limit
            then ok (rebuilt a, rest)
            else err io_invalid_data))
          × (classes (rebuilt a) ≡ classes a)
          × ((rebuilt a).total_count ≡ a.total_count)
    unfolding write_categorical_state
    read_categorical_state-write_categorical_state limit a rest h = (
      read_categorical_state-parts limit a.total_count (unique_classes a)
          (write_categorical_state a ++ rest) (write_u64 (unique_classes a) ++ entries) entries rest
          (update_all (classes a) new) (leb (unique_classes a) (limit / 64))
          (read_u64-write_u64 a.total_count (write_u64 (unique_classes a) ++ entries) h.total_bits)
          (count-write_u64 limit (unique_classes a) entries h.few)
          (ap (λ n. read_classes n new entries)
              (unique_classes-classes a
                (subst (λ n. a.inline_len ≤ n) (sym ((h.valid).slots).0) (((h.valid).slots).1)))
            ∙ read_classes-write_classes (classes a) new rest h.coded),
      rebuilt-classes a h,
      refl,
    )
      where
        entries : List ℕ
        entries = write_classes (classes a) ++ rest
