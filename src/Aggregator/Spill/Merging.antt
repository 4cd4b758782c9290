-- ===== src/Aggregator/Spill/Merging.antt =====
-- Merging two runs of crates/raster-h3-core/src/aggregator/multi_horizon/spill.rs: the result is
-- sorted, and under a key of both runs it has the merge of the left accumulator with the right one.
use raster_h.Common.{
  ℕ, ◌<◌, ◌≡◌, refl, ap, ap₂, sym, ◌∙◌, subst, Bool, true, false, List, [], ◌∷◌, All, ◌==◌,
  if◌then◌else◌, Result, err, arith, ◌⊎◌, inl, inr, io_invalid_data, Bool-cases, ==_self,
}
use raster_h.Aggregator.Spill.{SpillAccumulator, then_write}
use raster_h.Aggregator.Spill.Records.{Records, Holds, Above, Sorted, written, then_write-written}

module _ (A : Type 0) ⦃acc : SpillAccumulator A⦄ (limit : ℕ) where
  -- The accumulators of the records under a key, in order.
  unfoldable pub under : ℕ → Records A limit → List A
  under k [] = []
  under k ((j, a) ∷ es) = let rest = under k es in if j == k then a ∷ rest else rest

  pub under-Above : (k : ℕ) (es : Records A limit) → Above A limit k es → under k es ≡ []
  unfolding under
  under-Above k [] h = refl
  under-Above k ((j, a) ∷ es) h =
      let apart : (j == k) ≡ false = ground (arith, h.0) in rw apart (under-Above k es h.1)

  -- What a merge has under a key, of what the two runs have under it.
  abbrev pub join : List A → List A → List A
  join [] ys = ys
  join (a ∷ xs) [] = a ∷ xs
  join (a ∷ xs) (b ∷ ys) = acc.merge a b ∷ []

  -- What the loop may write for what is left of two runs.
  pub record Merges (ls rs : Records A limit) (r : Result (List ℕ × ℕ)) : Type 0 where
    pub merged : Records A limit
    pub writes : r ≡ written A limit merged
    pub merged_sorted : Sorted A limit merged
    pub merged_held : All (Holds A limit) merged
    pub above : (k : ℕ) → Above A limit k ls → Above A limit k rs → Above A limit k merged
    pub joins : (k : ℕ) → under k merged ≡ join (under k ls) (under k rs)

  -- A key of both runs whose accumulators merge to one over the limit.
  abbrev pub Clash : Records A limit → Records A limit → Type 0
  Clash ls rs =
      (k : ℕ) × (a : A) × (b : A) × (under k ls ≡ a ∷ [])
      × (under k rs ≡ b ∷ [])
      × (limit < acc.memory_bytes (acc.merge a b))

  abbrev pub MayMerge : Records A limit → Records A limit → Result (List ℕ × ℕ) → Type 0
  MayMerge ls rs r = ((r ≡ err io_invalid_data) × Clash ls rs) ⊎ Merges ls rs r

  -- A record in front of two runs whose merge it belongs before.
  put_first :
      (e : ℕ × A) (ls rs ls' rs' : Records A limit) (r : Result (List ℕ × ℕ))
      → Holds A limit e
      → Above A limit e.0 ls'
      → Above A limit e.0 rs'
      → ((k : ℕ)
          → Above A limit k ls
          → Above A limit k rs
          → (k < e.0) × Above A limit k ls' × Above A limit k rs')
      → ((k : ℕ) (x : List A)
          → x ≡ join (under k ls') (under k rs')
          → (if e.0 == k then e.1 ∷ x else x) ≡ join (under k ls) (under k rs))
      → (Clash ls' rs' → Clash ls rs)
      → MayMerge ls' rs' r
      → MayMerge ls rs (then_write A limit e r)
  put_first e ls rs ls' rs' r holds lo ro bound joined clash (inl failed) =
      inl (ap (then_write A limit e) (failed.0), clash (failed.1))
  put_first e ls rs ls' rs' r holds lo ro bound joined clash (inr m) = inr (record {
    merged = e ∷ m.merged;
    writes = ap (then_write A limit e) m.writes ∙ then_write-written A limit e m.merged;
    merged_sorted = unfold Sorted in (m.above e.0 lo ro, m.merged_sorted);
    merged_held = (holds, m.merged_held);
    above = λ k hl hr. let (first, l, q) = bound k hl hr in (first, m.above k l q);
    joins = λ k. unfold under in joined k (under k m.merged) (m.joins k);
  })

  -- Nothing is left under a key that a run is above.
  pub under_eq :
      (j k : ℕ) (es : Records A limit) → Above A limit j es → (j == k) ≡ true → under k es ≡ []
  under_eq j k es h same =
      under-Above k es (subst (λ i. Above A limit i es) (let e : j ≡ k = ground arith in e) h)

  -- A record of another key in front changes nothing under a key.
  apart_under :
      (e : ℕ × A) (k : ℕ) (a : A) (es : Records A limit)
      → Above A limit e.0 es
      → under k es ≡ a ∷ []
      → (e.0 == k) ≡ false
  apart_under e k a es h found = elim (Bool-cases (e.0 == k)) [
    | inl same ↦ cc (under_eq e.0 k es h same)
    | inr other ↦ other
  ]

  under_behind :
      (e : ℕ × A) (k : ℕ) (a : A) (es : Records A limit)
      → Above A limit e.0 es
      → under k es ≡ a ∷ []
      → under k (e ∷ es) ≡ a ∷ []
  unfolding under
  under_behind e k a es h found = rw (apart_under e k a es h found) found

  -- What a merge has of a record in front, of the left, the right and both of two runs.
  add_left :
      (b : Bool) (a : A) (x y z : List A)
      → x ≡ join y z
      → (b ≡ true → y ≡ [])
      → (b ≡ true → z ≡ [])
      → (if b then a ∷ x else x) ≡ join (if b then a ∷ y else y) z
  add_left true a x y z h no_left no_right =
      ap (λ t. a ∷ t) (h ∙ ap₂ join (no_left refl) (no_right refl) ∙ sym (no_left refl))
      ∙ ap (join (a ∷ y)) (sym (no_right refl))
  add_left false a x y z h no_left no_right = h

  add_right :
      (b : Bool) (a : A) (x y z : List A)
      → x ≡ join y z
      → (b ≡ true → y ≡ [])
      → (b ≡ true → z ≡ [])
      → (if b then a ∷ x else x) ≡ join y (if b then a ∷ z else z)
  add_right true a x y z h no_left no_right = rw (h, no_left refl, no_right refl) refl
  add_right false a x y z h no_left no_right = h

  add_both :
      (b c : Bool) (a d : A) (x y z : List A)
      → b ≡ c
      → x ≡ join y z
      → (b ≡ true → y ≡ [])
      → (b ≡ true → z ≡ [])
      → (if b then acc.merge a d ∷ x else x)
        ≡ join (if b then a ∷ y else y) (if c then d ∷ z else z)
  add_both true true a d x y z same h no_left no_right = rw (h, no_left refl, no_right refl) refl
  add_both false false a d x y z same h no_left no_right = h
  add_both true false a d x y z same h no_left no_right = cc
  add_both false true a d x y z same h no_left no_right = cc

  pub put_left :
      (l : ℕ × A) (ls rs : Records A limit) (r : Result (List ℕ × ℕ))
      → Holds A limit l
      → Above A limit l.0 ls
      → Above A limit l.0 rs
      → MayMerge ls rs r
      → MayMerge (l ∷ ls) rs (then_write A limit l r)
  unfolding under
  put_left l ls rs r holds al ar may =
      put_first l (l ∷ ls) rs ls rs r holds al ar (λ k hl hr. (hl.0, hl.1, hr))
        (λ k x h.
          add_left (l.0 == k) l.1 x (under k ls) (under k rs) h (under_eq l.0 k ls al)
            (under_eq l.0 k rs ar))
        (λ c. (c.0, c.1, c.2, under_behind l (c.0) (c.1) ls al (c.3), c.4, c.5)) may

  pub put_right :
      (e : ℕ × A) (ls rs : Records A limit) (r : Result (List ℕ × ℕ))
      → Holds A limit e
      → Above A limit e.0 ls
      → Above A limit e.0 rs
      → MayMerge ls rs r
      → MayMerge ls (e ∷ rs) (then_write A limit e r)
  unfolding under
  put_right e ls rs r holds al ar may =
      put_first e ls (e ∷ rs) ls rs r holds al ar (λ k hl hr. (hr.0, hl, hr.1))
        (λ k x h.
          add_right (e.0 == k) e.1 x (under k ls) (under k rs) h (under_eq e.0 k ls al)
            (under_eq e.0 k rs ar))
        (λ c. (c.0, c.1, c.2, c.3, under_behind e (c.0) (c.2) rs ar (c.4), c.5)) may

  pub put_both :
      (l e : ℕ × A) (ls rs : Records A limit) (r : Result (List ℕ × ℕ))
      → l.0 ≡ e.0
      → Holds A limit (l.0, acc.merge l.1 e.1)
      → Above A limit l.0 ls
      → Above A limit e.0 rs
      → MayMerge ls rs r
      → MayMerge (l ∷ ls) (e ∷ rs) (then_write A limit (l.0, acc.merge l.1 e.1) r)
  unfolding under
  put_both l e ls rs r same holds al ar may =
      let ar' = subst (λ j. Above A limit j rs) (sym same) ar in
      put_first (l.0, acc.merge l.1 e.1) (l ∷ ls) (e ∷ rs) ls rs r holds al ar'
        (λ k hl hr. (hl.0, hl.1, hr.1))
        (λ k x h.
          add_both (l.0 == k) (e.0 == k) l.1 e.1 x (under k ls) (under k rs) (ap (λ j. j == k) same)
            h (under_eq l.0 k ls al) (under_eq l.0 k rs ar'))
        (λ c. (
          c.0,
          c.1,
          c.2,
          under_behind l (c.0) (c.1) ls al (c.3),
          under_behind e (c.0) (c.2) rs ar (c.4),
          c.5,
        ))
        may

  -- Two records of one key that are too large together.
  pub Clash-heads :
      (l e : ℕ × A) (ls rs : Records A limit)
      → l.0 ≡ e.0
      → Above A limit l.0 ls
      → Above A limit e.0 rs
      → limit < acc.memory_bytes (acc.merge l.1 e.1)
      → Clash (l ∷ ls) (e ∷ rs)
  Clash-heads l e ls rs same al ar over = (
    l.0,
    l.1,
    e.1,
    under_head l ls al,
    subst (λ k. under k (e ∷ rs) ≡ e.1 ∷ []) (sym same) (under_head e rs ar),
    over,
  )
    where
      under_head :
          (x : ℕ × A) (es : Records A limit) → Above A limit x.0 es → under x.0 (x ∷ es) ≡ x.1 ∷ []
      under_head x es h = unfold under in rw ==_self (ap (λ t. x.1 ∷ t) (under-Above x.0 es h))
