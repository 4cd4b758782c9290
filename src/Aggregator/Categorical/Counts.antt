-- ===== src/Aggregator/Categorical/Counts.antt =====
-- What the class counts are after updates: crates/raster-h3-core/src/aggregator/categorical.rs.
use raster_h.Common.{
  ℕ, suc, ◌+◌, ◌≤◌, ◌<◌, ◌≡◌, refl, ap, ap₂, sym, ◌∙◌, subst, Bool, true, false, Option, none, some,
  [], take, set, length, if◌then◌else◌, if-elim, ltb, Bool-cases, Option-cases, inl, inr, arith,
}
use raster_h.Common.Int.{ℤ, eqb_ℤ}
use raster_h.Common.Eq.{int_has_eq}
use raster_h.Common.Maps.{
  lookup, insert, insert_new, insert_all_new, Distinct, Distinct-insert, lookup-insert,
}
use raster_h.Aggregator.Categorical.{
  FloatOps, CategoricalAccumulator, Classes, classes, inline_capacity, or_zero, inline_count,
  get_class_count, add_inline, add_heap, add_class, update_weighted,
}
use raster_h.Aggregator.Categorical.Inline.{
  inline_count-lookup, take-set, length-set, Adds, add_inline-Adds,
}

pub get_class_count-classes :
    (a : CategoricalAccumulator) (c : ℤ) → get_class_count a c ≡ or_zero (lookup c (classes a))
unfolding get_class_count classes
get_class_count-classes a c = count a.heap_counts
  where
    count :
        (h : Option Classes)
        → elim h as (λ _. ℕ) [
          | some heap ↦ or_zero (lookup c heap)
          | none ↦ inline_count a.inline_len a.inline_entries c
        ]
          ≡ or_zero (
              lookup c (elim h as (λ _. Classes) [
                | some heap ↦ heap
                | none ↦ take a.inline_len a.inline_entries
              ]))
    count none = inline_count-lookup a.inline_len a.inline_entries c
    count (some heap) = refl

module _ ⦃f : FloatOps⦄ where
  -- A class with its weight on a plain list of classes.
  abbrev pub add_to : ℤ → ℕ → Classes → Classes
  add_to c w m = insert c (elim (lookup c m) [ none ↦ w | some v ↦ f.add v w ]) m

  abbrev state : Classes → ℕ → Option Classes → ℕ → CategoricalAccumulator
  state es n h total = record {
    inline_entries = es;
    inline_len = n;
    heap_counts = h;
    total_count = total;
  }

  abbrev pub HasSlots : CategoricalAccumulator → Type 0
  HasSlots a = (length a.inline_entries ≡ inline_capacity) × (a.inline_len ≤ inline_capacity)

  abbrev pub Updates : ℤ → ℕ → CategoricalAccumulator → CategoricalAccumulator → Type 0
  Updates c w a a' = HasSlots a' × (classes a' ≡ add_to c w (classes a))

  add_heap-add_to :
      (c : ℤ) (w : ℕ) (heap : Classes)
      → f.not_positive w ≡ false
      → add_heap c w heap ≡ add_to c w heap
  unfolding add_heap
  add_heap-add_to c w heap p = elim (Option-cases (lookup c heap)) [
    | inl missing ↦ rw missing (ap (λ v. insert c v heap) (f.zero_add w p))
    | inr (v, found) ↦ rw found refl
  ]

  pub add_to_missing :
      (c : ℤ) (w : ℕ) (m : Classes) → lookup c m ≡ none → add_to c w m ≡ insert c w m
  add_to_missing c w m missing = rw missing refl

  -- A class that no slot has.
  add_class-Updates :
      (c : ℤ) (w total : ℕ) (es : Classes) (n : ℕ)
      → length es ≡ inline_capacity
      → n ≤ inline_capacity
      → Distinct (take n es)
      → lookup c (take n es) ≡ none
      → Updates c w (state es n none total) (add_class c w (state es n none total))
  unfolding add_class classes
  add_class-Updates c w total es n slots small d missing =
      if-elim (Updates c w (state es n none total)) (ltb n inline_capacity) _ _
        (λ room.
          let below : n < length es = ground arith in
          let next : n + 1 ≡ suc n = omega arith in
          (
            (length-set n es (c, w) ∙ slots, omega arith),
            ap (λ k. take k (set es n (c, w))) next
                ∙ take-set n es (c, w) below
                ∙ sym (add_to_missing c w (take n es) missing ∙ insert_new c w (take n es) missing),
          ))
        (λ full.
          let all : n ≡ inline_capacity = ground arith in
          let spilled =
            insert_all_new (take inline_capacity es) [] (subst (λ k. Distinct (take k es)) all d) in
          (
            (slots, small),
            ap (insert c w) (spilled ∙ ap (λ k. take k es) (sym all))
                ∙ sym (add_to_missing c w (take n es) missing),
          ))

  slots_updated :
      (c : ℤ) (w before total : ℕ) (es : Classes) (n : ℕ) (r : Option Classes)
      → length es ≡ inline_capacity
      → n ≤ inline_capacity
      → Distinct (take n es)
      → Adds n es c w r
      → Updates c w (state es n none before) (elim r [
        | some entries ↦ state entries n none total
        | none ↦ add_class c w (state es n none total)
      ])
  unfolding classes
  slots_updated c w before total es n none slots small d missing =
      add_class-Updates c w total es n slots small d missing
  slots_updated c w before total es n (some es') slots small d (v, found, len, takes) =
      ((len ∙ slots, small), rw found takes)

  -- What holds of an accumulator between calls.
  pub record IsCategorical (a : CategoricalAccumulator) : Type 0 where
    pub slots : HasSlots a
    pub distinct : Distinct (classes a)

  updated_at :
      (c : ℤ) (w total : ℕ) (es : Classes) (n : ℕ) (h : Option Classes)
      → f.not_positive w ≡ false
      → IsCategorical (state es n h total)
      → Updates c w (state es n h total) (update_weighted c w (state es n h total))
  unfolding update_weighted classes
  updated_at c w total es n (some heap) p i = rw p ((i.slots), add_heap-add_to c w heap p)
  updated_at c w total es n none p i = rw p (
      slots_updated c w total (f.add total w) es n (add_inline n es c w) ((i.slots).0) ((i.slots).1)
        i.distinct (add_inline-Adds n es c w))

  unchanged :
      (c : ℤ) (w : ℕ) (a : CategoricalAccumulator)
      → f.not_positive w ≡ true
      → update_weighted c w a ≡ a
  unfolding update_weighted
  unchanged c w a p = rw p refl

  pub update_weighted-Updates :
      (c : ℤ) (w : ℕ) (a : CategoricalAccumulator)
      → f.not_positive w ≡ false
      → IsCategorical a
      → Updates c w a (update_weighted c w a)
  update_weighted-Updates c w a p i =
      updated_at c w a.total_count a.inline_entries a.inline_len a.heap_counts p i

  pub update_weighted-IsCategorical :
      (c : ℤ) (w : ℕ) (a : CategoricalAccumulator)
      → IsCategorical a
      → IsCategorical (update_weighted c w a)
  update_weighted-IsCategorical c w a i = elim (Bool-cases (f.not_positive w)) [
    | inl p ↦ subst IsCategorical (sym (unchanged c w a p)) i
    | inr p ↦
        let (slots, same) = update_weighted-Updates c w a p i in
        record {
          slots = slots;
          distinct = subst Distinct (sym same) (Distinct-insert c _ (classes a) i.distinct);
        }
  ]

  added :
      (c j : ℤ) (w : ℕ) (m : Classes)
      → f.not_positive w ≡ false
      → or_zero (lookup j (add_to c w m))
        ≡ (if eqb_ℤ c j then f.add (or_zero (lookup c m)) w else or_zero (lookup j m))
  unfolding add_heap
  added c j w m p =
      ap (λ t. or_zero (lookup j t)) (sym (add_heap-add_to c w m p))
      ∙ ap or_zero (lookup-insert c j (f.add (or_zero (lookup c m)) w) m)
      ∙ either (eqb_ℤ c j) _ _
    where
      either :
          (b : Bool) (v : ℕ) (o : Option ℕ)
          → or_zero (if b then some v else o) ≡ (if b then v else or_zero o)
      either true v o = refl
      either false v o = refl

  pub get_class_count-update_weighted :
      (c j : ℤ) (w : ℕ) (a : CategoricalAccumulator)
      → IsCategorical a
      → get_class_count (update_weighted c w a) j ≡ (
          if f.not_positive w
          then get_class_count a j
          else if eqb_ℤ c j
          then f.add (get_class_count a c) w
          else get_class_count a j)
  get_class_count-update_weighted c j w a i = elim (Bool-cases (f.not_positive w)) [
    | inl p ↦ rw p (ap (λ b. get_class_count b j) (unchanged c w a p))
    | inr p ↦ rw p (
        get_class_count-classes (update_weighted c w a) j
        ∙ ap (λ m. or_zero (lookup j m)) (update_weighted-Updates c w a p i).1
        ∙ added c j w (classes a) p
        ∙ sym (
            ap₂ (λ x y. if eqb_ℤ c j then f.add x w else y) (get_class_count-classes a c)
              (get_class_count-classes a j)))
  ]
