-- ===== src/Aggregator/Categorical/Merge.antt =====
-- What the class counts are after a merge: crates/raster-h3-core/src/aggregator/categorical.rs.
use raster_h.Common.{
  ℕ, ◌≡◌, refl, ap, ◌∙◌, subst, false, Option, none, some, [], ◌∷◌, if◌then◌else◌, All, Bool-cases,
  inl, inr,
}
use raster_h.Common.Int.{ℤ, eqb_ℤ, eqb_ℤ-eq}
use raster_h.Common.Eq.{int_has_eq}
use raster_h.Common.Maps.{lookup, Distinct}
use raster_h.Aggregator.Categorical.{
  FloatOps, CategoricalAccumulator, Classes, classes, get_class_count, update_weighted, update_all,
  merge,
}
use raster_h.Aggregator.Categorical.Counts.{
  IsCategorical, update_weighted-IsCategorical, get_class_count-update_weighted,
}

module _ ⦃f : FloatOps⦄ where
  -- Weights that updates do not skip.
  abbrev pub Positive : Classes → Type 0
  Positive = All (λ e. f.not_positive e.1 ≡ false)

  -- A count with what other classes add to it.
  abbrev pub plus : ℕ → Option ℕ → ℕ
  plus v none = v
  plus v (some w) = f.add v w

  get_class_count-update_all :
      (cs : Classes) (j : ℤ) (a : CategoricalAccumulator)
      → Distinct cs
      → Positive cs
      → IsCategorical a
      → get_class_count (update_all cs a) j ≡ plus (get_class_count a j) (lookup j cs)
  unfolding update_all
  get_class_count-update_all [] j a d p i = refl
  get_class_count-update_all ((c, w) ∷ cs) j a d p i =
      get_class_count-update_all cs j (update_weighted c w a) d.1 p.1
        (update_weighted-IsCategorical c w a i)
      ∙ ap (λ v. plus v (lookup j cs)) (get_class_count-update_weighted c j w a i)
      ∙ elim (Bool-cases (eqb_ℤ c j)) [
        | inl same ↦
            let e : c ≡ j = eqb_ℤ-eq c j same in
            rw (p.0, same, subst (λ k. lookup k cs ≡ none) e d.0)
              (ap (λ k. f.add (get_class_count a k) w) e)
        | inr other ↦ rw (p.0, other) refl
      ]

  -- Merging adds the counts of the other accumulator, whose weights are positive, class by class; one
  -- whose total is zero changes nothing.
  pub get_class_count-merge :
      (a b : CategoricalAccumulator) (j : ℤ)
      → IsCategorical a
      → IsCategorical b
      → Positive (classes b)
      → get_class_count (merge a b) j ≡ (
          if f.is_zero b.total_count
          then get_class_count a j
          else plus (get_class_count a j) (lookup j (classes b)))
  unfolding merge
  get_class_count-merge a b j i k p = elim (Bool-cases (f.is_zero b.total_count)) [
    | inl empty ↦ rw empty refl
    | inr more ↦ rw more (get_class_count-update_all (classes b) j a k.distinct p i)
  ]
