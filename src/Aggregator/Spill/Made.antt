-- ===== src/Aggregator/Spill/Made.antt =====
-- What it is for a run of crates/raster-h3-core/src/aggregator/multi_horizon/spill.rs to be made of
-- records that were pushed: an accumulator is a merge of those under its key, each once, in their order.
use raster_h.Common.{
  ℕ, ◌<◌, ◌≡◌, refl, ap, sym, ◌∙◌, subst, List, [], ◌∷◌, ◌++◌, ◌==◌, Bool-cases, inl, inr,
  append-nil,
}
use raster_h.Aggregator.Spill.{SpillAccumulator}
use raster_h.Aggregator.Spill.Records.{Records, Sorted}
use raster_h.Aggregator.Spill.Merging.{under, under_eq, join, Clash}

module _ (A : Type 0) ⦃acc : SpillAccumulator A⦄ (limit : ℕ) where
  -- A merge of accumulators in their order, with any brackets.
  pub data MergeOf : A → List A → Type 0 where
    single : (a : A) → MergeOf a (a ∷ [])
    merge_of :
        (a b : A) (xs ys : List A)
        → MergeOf a xs
        → MergeOf b ys
        → MergeOf (acc.merge a b) (xs ++ ys)

  -- What a run has under a key, of the accumulators pushed under it.
  abbrev pub Made : List A → List A → Type 0
  Made [] from = from ≡ []
  Made (a ∷ []) from = MergeOf a from
  Made (a ∷ b ∷ as') from = ⊥

  -- A run of records that were made of pushed ones.
  abbrev pub AllMade : Records A limit → Records A limit → Type 0
  AllMade es from = (k : ℕ) → Made (under A limit k es) (under A limit k from)

  pub under-append :
      (k : ℕ) (xs ys : Records A limit)
      → under A limit k (xs ++ ys) ≡ under A limit k xs ++ under A limit k ys
  unfolding under
  under-append k [] ys = refl
  under-append k ((j, a) ∷ xs) ys = elim (Bool-cases (j == k)) [
    | inl same ↦ rw same (ap (λ t. a ∷ t) (under-append k xs ys))
    | inr other ↦ rw other (under-append k xs ys)
  ]

  Made-join :
      (xs ys from more : List A)
      → Made xs from
      → Made ys more
      → Made (join A limit xs ys) (from ++ more)
  Made-join [] ys from more p q = subst (λ t. Made ys (t ++ more)) (sym p) q
  Made-join (a ∷ []) [] from more p q =
      subst (MergeOf a) (sym (ap (λ t. from ++ t) q ∙ append-nil from)) p
  Made-join (a ∷ []) (b ∷ []) from more p q = merge_of a b from more p q
  Made-join (a ∷ []) (b ∷ c ∷ ys) from more p q = elim q [ ]
  Made-join (a ∷ b ∷ xs) ys from more p q = elim p [ ]

  pub AllMade-join :
      (es ls rs from more : Records A limit)
      → ((k : ℕ) → under A limit k es ≡ join A limit (under A limit k ls) (under A limit k rs))
      → AllMade ls from
      → AllMade rs more
      → AllMade es (from ++ more)
  AllMade-join es ls rs from more joins p q k =
      subst (λ t. Made t (under A limit k (from ++ more))) (sym (joins k))
        (subst (Made (join A limit (under A limit k ls) (under A limit k rs)))
          (sym (under-append k from more))
          (Made-join (under A limit k ls) (under A limit k rs) (under A limit k from)
            (under A limit k more) (p k) (q k)))

  -- Sorted records are made of themselves.
  pub Sorted-AllMade : (es : Records A limit) → Sorted A limit es → AllMade es es
  unfolding Sorted under
  Sorted-AllMade [] s k = refl
  Sorted-AllMade ((j, a) ∷ es) s k = elim (Bool-cases (j == k)) [
    | inl same ↦ rw (same, under_eq A limit j k es s.0 same) (single a)
    | inr other ↦ rw other (Sorted-AllMade es s.1 k)
  ]

  -- Of records in the order of their pushes: the last two parts, `left` and `right`, merge under some
  -- key to accumulators whose merge is over the limit.
  pub record TooLarge (all : Records A limit) : Type 0 where
    pub key : ℕ
    pub older : Records A limit
    pub left : Records A limit
    pub right : Records A limit
    pub a : A
    pub b : A
    pub consecutive : all ≡ older ++ (left ++ right)
    pub made_a : MergeOf a (under A limit key left)
    pub made_b : MergeOf b (under A limit key right)
    pub over : limit < acc.memory_bytes (acc.merge a b)

  pub Clash-TooLarge :
      (ls rs older left right : Records A limit)
      → AllMade ls left
      → AllMade rs right
      → Clash A limit ls rs
      → TooLarge (older ++ (left ++ right))
  Clash-TooLarge ls rs older left right p q (k, a, b, has_a, has_b, large) = record {
    key = k;
    older = older;
    left = left;
    right = right;
    a = a;
    b = b;
    consecutive = refl;
    made_a = subst (λ t. Made t (under A limit k left)) has_a (p k);
    made_b = subst (λ t. Made t (under A limit k right)) has_b (q k);
    over = large;
  }
