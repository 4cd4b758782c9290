-- ===== src/Aggregator/Categorical/Inline.antt =====
-- The slots of an accumulator as a list of classes: crates/raster-h3-core/src/aggregator/categorical.rs.
use raster_h.Common.{
  ℕ, zero, suc, ◌<◌, ◌≡◌, refl, ap, false, Option, none, some, [], ◌∷◌, ◌++◌, take, set, length,
  Bool-cases, inl, inr, arith,
}
use raster_h.Common.Int.{ℤ, eqb_ℤ, eqb_ℤ-eq}
use raster_h.Common.Eq.{int_has_eq}
use raster_h.Common.Maps.{lookup, insert}
use raster_h.Aggregator.Categorical.{FloatOps, Classes, or_zero, inline_count, add_inline}

pub inline_count-lookup :
    (n : ℕ) (es : Classes) (c : ℤ) → inline_count n es c ≡ or_zero (lookup c (take n es))
unfolding inline_count
inline_count-lookup zero es c = refl
inline_count-lookup (suc n) [] c = refl
inline_count-lookup (suc n) ((j, w) ∷ es) c = elim (Bool-cases (eqb_ℤ j c)) [
  | inl same ↦ rw same refl
  | inr other ↦ rw other (inline_count-lookup n es c)
]

-- A slot behind those in use.
pub take-set :
    (n : ℕ) (es : Classes) (e : ℤ × ℕ)
    → n < length es
    → take (suc n) (set es n e) ≡ take n es ++ e ∷ []
take-set n [] e h = ground arith
take-set zero (x ∷ es) e h = refl
take-set (suc n) (x ∷ es) e h = ap (λ t. x ∷ t) (take-set n es e (omega arith))

pub length-set : (n : ℕ) (es : Classes) (e : ℤ × ℕ) → length (set es n e) ≡ length es
length-set n [] e = refl
length-set zero (x ∷ es) e = refl
length-set (suc n) (x ∷ es) e = ap (λ k. suc k) (length-set n es e)

module _ ⦃f : FloatOps⦄ where
  -- What the loop over the slots finds.
  abbrev pub Adds : ℕ → Classes → ℤ → ℕ → Option Classes → Type 0
  Adds n es c w none = lookup c (take n es) ≡ none
  Adds n es c w (some es') =
      (v : ℕ) × (lookup c (take n es) ≡ some v)
      × (length es' ≡ length es)
      × (take n es' ≡ insert c (f.add v w) (take n es))

  later_slot :
      (n : ℕ) (es : Classes) (j c : ℤ) (v w : ℕ) (r : Option Classes)
      → eqb_ℤ j c ≡ false
      → Adds n es c w r
      → Adds (suc n) ((j, v) ∷ es) c w (elim r [ none ↦ none | some rest ↦ some ((j, v) ∷ rest) ])
  later_slot n es j c v w none other h = rw other h
  later_slot n es j c v w (some es') other (u, found, len, takes) =
      (u, rw other found, ap (λ k. suc k) len, rw other (ap (λ t. (j, v) ∷ t) takes))

  pub add_inline-Adds : (n : ℕ) (es : Classes) (c : ℤ) (w : ℕ) → Adds n es c w (add_inline n es c w)
  unfolding add_inline
  add_inline-Adds zero es c w = refl
  add_inline-Adds (suc n) [] c w = refl
  add_inline-Adds (suc n) ((j, v) ∷ es) c w = elim (Bool-cases (eqb_ℤ j c)) [
    | inl same ↦
        rw same (
          v,
          rw same refl,
          refl,
          rw same (ap (λ i. (i, f.add v w) ∷ take n es) (eqb_ℤ-eq j c same)),
        )
    | inr other ↦
        rw other (later_slot n es j c v w (add_inline n es c w) other (add_inline-Adds n es c w))
  ]
