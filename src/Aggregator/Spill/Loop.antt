-- ===== src/Aggregator/Spill/Loop.antt =====
-- The loop that merges two runs: crates/raster-h3-core/src/aggregator/multi_horizon/spill.rs.
use raster_h.Common.{
  ℕ, zero, suc, ◌+◌, ◌≤◌, ◌<◌, ◌≡◌, refl, ap, ap₂, sym, ◌∙◌, subst, true, false, Option, none, some,
  List, [], ◌∷◌, length, All, ltb, Result, ok, err, ◌>>=◌, arith, ◌⊎◌, inl, inr, Bool-cases,
  io_invalid_data,
}
use raster_h.Aggregator.Spill.{
  SpillAccumulator, RunReader, Run, next_record, then_write, merge_loop, merge_runs, open_run,
}
use raster_h.Aggregator.Spill.Records.{
  Records, Holds, Above-trans, Sorted, records_bytes, reader_of, head, tail, next_record-reader_of,
  IsRun,
}
use raster_h.Aggregator.Spill.Merging.{
  Merges, MayMerge, Clash, Clash-heads, under, join, put_left, put_right, put_both,
}

module _ (A : Type 0) ⦃acc : SpillAccumulator A⦄ (limit : ℕ) where
  abbrev loop : ℕ → Records A limit → Records A limit → Result (List ℕ × ℕ)
  loop fuel ls rs =
      merge_loop A limit fuel (head A limit ls) (reader_of A limit (tail A limit ls))
        (head A limit rs) (reader_of A limit (tail A limit rs))

  after_next :
      (es : Records A limit)
      → All (Holds A limit) es
      → (f : Option (ℕ × A) × RunReader → Result (List ℕ × ℕ))
      → (next_record A limit (reader_of A limit es) >>= f)
        ≡ f (head A limit es, reader_of A limit (tail A limit es))
  after_next es h f = ap (λ r. r >>= f) (next_record-reader_of A limit es h)

  nothing_left : (fuel : ℕ) → Merges A limit [] [] (loop fuel [] [])
  unfolding merge_loop Sorted under records_bytes
  nothing_left zero = record {
    merged = [];
    writes = refl;
    merged_sorted = tt;
    merged_held = tt;
    above = λ k hl hr. tt;
    joins = λ k. refl;
  }
  nothing_left (suc fuel) = record {
    merged = [];
    writes = refl;
    merged_sorted = tt;
    merged_held = tt;
    above = λ k hl hr. tt;
    joins = λ k. refl;
  }

  -- The rounds of the loop where both runs have a record.
  step_left :
      (fuel : ℕ) (l r : ℕ × A) (ls rs : Records A limit)
      → All (Holds A limit) ls
      → ltb l.0 r.0 ≡ true
      → loop (suc fuel) (l ∷ ls) (r ∷ rs) ≡ then_write A limit l (loop fuel ls (r ∷ rs))
  unfolding merge_loop
  step_left fuel l r ls rs h t =
      rw (merge_loop, t)
        (after_next ls h (λ x.
          then_write A limit l (merge_loop A limit fuel x.0 x.1 (some r) (reader_of A limit rs))))

  step_right :
      (fuel : ℕ) (l r : ℕ × A) (ls rs : Records A limit)
      → All (Holds A limit) rs
      → ltb l.0 r.0 ≡ false
      → ltb r.0 l.0 ≡ true
      → loop (suc fuel) (l ∷ ls) (r ∷ rs) ≡ then_write A limit r (loop fuel (l ∷ ls) rs)
  unfolding merge_loop
  step_right fuel l r ls rs h f t =
      rw (merge_loop, f, t)
        (after_next rs h (λ x.
          then_write A limit r (merge_loop A limit fuel (some l) (reader_of A limit ls) x.0 x.1)))

  step_large :
      (fuel : ℕ) (l r : ℕ × A) (ls rs : Records A limit)
      → ltb l.0 r.0 ≡ false
      → ltb r.0 l.0 ≡ false
      → ltb limit (acc.memory_bytes (acc.merge l.1 r.1)) ≡ true
      → loop (suc fuel) (l ∷ ls) (r ∷ rs) ≡ err io_invalid_data
  unfolding merge_loop
  step_large fuel l r ls rs f g t = rw (merge_loop, f, g, t) refl

  step_both :
      (fuel : ℕ) (l r : ℕ × A) (ls rs : Records A limit)
      → All (Holds A limit) ls
      → All (Holds A limit) rs
      → ltb l.0 r.0 ≡ false
      → ltb r.0 l.0 ≡ false
      → ltb limit (acc.memory_bytes (acc.merge l.1 r.1)) ≡ false
      → loop (suc fuel) (l ∷ ls) (r ∷ rs)
        ≡ then_write A limit (l.0, acc.merge l.1 r.1) (loop fuel ls rs)
  unfolding merge_loop
  step_both fuel l r ls rs hl hr f g t =
      rw (merge_loop, f, g, t)
        (after_next ls hl (λ x. next_record A limit (reader_of A limit rs) >>= (λ y.
            then_write A limit (l.0, acc.merge l.1 r.1) (merge_loop A limit fuel x.0 x.1 y.0 y.1)))
          ∙ after_next rs hr (λ y.
            then_write A limit (l.0, acc.merge l.1 r.1)
              (merge_loop A limit fuel (head A limit ls) (reader_of A limit (tail A limit ls)) y.0
                y.1)))

  -- A round on two records of one key.
  equal_keys :
      (fuel : ℕ) (l r : ℕ × A) (ls rs : Records A limit)
      → Sorted A limit (l ∷ ls)
      → Sorted A limit (r ∷ rs)
      → All (Holds A limit) (l ∷ ls)
      → All (Holds A limit) (r ∷ rs)
      → ltb l.0 r.0 ≡ false
      → ltb r.0 l.0 ≡ false
      → MayMerge A limit ls rs (loop fuel ls rs)
      → MayMerge A limit (l ∷ ls) (r ∷ rs) (loop (suc fuel) (l ∷ ls) (r ∷ rs))
  unfolding Sorted
  equal_keys fuel l r ls rs sl sr hl hr not_left not_right rest =
      let same : l.0 ≡ r.0 = ground arith in
      elim (Bool-cases (ltb limit (acc.memory_bytes (acc.merge l.1 r.1)))) [
        | inl large ↦
            let over : limit < acc.memory_bytes (acc.merge l.1 r.1) = ground arith in
            inl (
              step_large fuel l r ls rs not_left not_right large,
              Clash-heads A limit l r ls rs same (sl.0) (sr.0) over,
            )
        | inr small ↦
            let within : acc.memory_bytes (acc.merge l.1 r.1) ≤ limit = ground arith in
            subst (MayMerge A limit (l ∷ ls) (r ∷ rs))
              (sym (step_both fuel l r ls rs hl.1 hr.1 not_left not_right small))
              (put_both A limit l r ls rs (loop fuel ls rs) same
                ((hl.0).0, acc.merge-IsState l.1 r.1 ((hl.0).1) ((hr.0).1), within) (sl.0) (sr.0)
                rest)
      ]

  -- With a round for every record, merging two runs of records is refused for its size or merges
  -- them.
  merge_loop-MayMerge :
      (fuel : ℕ) (ls rs : Records A limit)
      → Sorted A limit ls
      → Sorted A limit rs
      → All (Holds A limit) ls
      → All (Holds A limit) rs
      → length ls + length rs ≤ fuel
      → MayMerge A limit ls rs (loop fuel ls rs)
  unfolding merge_loop Sorted under
  merge_loop-MayMerge zero [] [] sl sr hl hr le = inr (nothing_left zero)
  merge_loop-MayMerge zero (l ∷ ls) rs sl sr hl hr le = ground arith
  merge_loop-MayMerge zero [] (r ∷ rs) sl sr hl hr le = ground arith
  merge_loop-MayMerge (suc fuel) [] [] sl sr hl hr le = inr (nothing_left (suc fuel))
  merge_loop-MayMerge (suc fuel) (l ∷ ls) [] sl sr hl hr le =
      let shorter : length ls + 0 ≤ fuel = omega arith in
      subst (MayMerge A limit (l ∷ ls) [])
        (sym (
          after_next ls hl.1 (λ x.
            then_write A limit l (merge_loop A limit fuel x.0 x.1 none (reader_of A limit [])))))
        (put_left A limit l ls [] (loop fuel ls []) (hl.0) (sl.0) tt
          (merge_loop-MayMerge fuel ls [] sl.1 tt hl.1 tt shorter))
  merge_loop-MayMerge (suc fuel) [] (r ∷ rs) sl sr hl hr le =
      subst (MayMerge A limit [] (r ∷ rs))
        (sym (
          after_next rs hr.1 (λ x.
            then_write A limit r (merge_loop A limit fuel none (reader_of A limit []) x.0 x.1))))
        (put_right A limit r [] rs (loop fuel [] rs) (hr.0) tt (sr.0)
          (merge_loop-MayMerge fuel [] rs tt sr.1 tt hr.1 (omega arith)))
  merge_loop-MayMerge (suc fuel) (l ∷ ls) (r ∷ rs) sl sr hl hr le =
      elim (Bool-cases (ltb l.0 r.0)) [
        | inl left_first ↦
            let first : l.0 < r.0 = ground arith in
            subst (MayMerge A limit (l ∷ ls) (r ∷ rs))
              (sym (step_left fuel l r ls rs hl.1 left_first))
              (put_left A limit l ls (r ∷ rs) (loop fuel ls (r ∷ rs)) (hl.0) (sl.0)
                (first, Above-trans A limit l.0 r.0 rs (omega arith) sr.0)
                (merge_loop-MayMerge fuel ls (r ∷ rs) sl.1 sr hl.1 hr (omega arith)))
        | inr not_left ↦ elim (Bool-cases (ltb r.0 l.0)) [
          | inl right_first ↦
              let first : r.0 < l.0 = ground arith in
              subst (MayMerge A limit (l ∷ ls) (r ∷ rs))
                (sym (step_right fuel l r ls rs hr.1 not_left right_first))
                (put_right A limit r (l ∷ ls) rs (loop fuel (l ∷ ls) rs) (hr.0)
                  (first, Above-trans A limit r.0 l.0 ls (omega arith) sl.0) (sr.0)
                  (merge_loop-MayMerge fuel (l ∷ ls) rs sl sr.1 hl hr.1 (omega arith)))
          | inr not_right ↦
              equal_keys fuel l r ls rs sl sr hl hr not_left not_right
                (merge_loop-MayMerge fuel ls rs sl.1 sr.1 hl.1 hr.1 (omega arith))
        ]
      ]

  merge_runs-parts :
      (left right : Run) (left' right' : RunReader) (a b : Option (ℕ × A))
      → next_record A limit (open_run left) ≡ ok (a, left')
      → next_record A limit (open_run right) ≡ ok (b, right')
      → merge_runs A limit left right ≡ (
          merge_loop A limit (left.len + right.len) a left' b right'
          >>= (λ x. ok (record { file = x.0; len = x.1 })))
  unfolding merge_runs
  merge_runs-parts left right left' right' a b p q = rw (p, q) refl

  -- Two runs of records merge to a run of the records of both, or are refused for the size of an
  -- accumulator.
  abbrev pub MergesTo : Records A limit → Records A limit → Result Run → Type 0
  MergesTo ls rs r =
      ((r ≡ err io_invalid_data) × Clash A limit ls rs)
      ⊎ (run : Run) × (es : Records A limit) × (r ≡ ok run)
        × IsRun A limit run es
        × ((k : ℕ) → under A limit k es ≡ join A limit (under A limit k ls) (under A limit k rs))

  pub merge_runs-MergesTo :
      (left right : Run) (ls rs : Records A limit)
      → IsRun A limit left ls
      → IsRun A limit right rs
      → MergesTo ls rs (merge_runs A limit left right)
  unfolding merge_runs
  merge_runs-MergesTo left right ls rs l r =
      elim (merge_loop-MayMerge (left.len + right.len) ls rs l.sorted r.sorted l.held r.held
        (let e = l.len_is in let f = r.len_is in omega arith)) [
          | inl refused ↦ inl (runs ∙ ap to_run (refused.0), refused.1)
          | inr m ↦ inr (
            record { file = records_bytes A limit m.merged; len = length m.merged },
            m.merged,
            runs ∙ ap to_run m.writes,
            record {
              file_is = refl;
              len_is = refl;
              sorted = m.merged_sorted;
              held = m.merged_held;
            },
            m.joins,
          )
        ]
    where
      to_run : Result (List ℕ × ℕ) → Result Run
      to_run r = do (file, len) ← r; ok (record { file = file; len = len })

      opened_left : open_run left ≡ reader_of A limit ls
      opened_left = ap₂ (λ f n. record { input = f; remaining = n }) l.file_is l.len_is

      opened_right : open_run right ≡ reader_of A limit rs
      opened_right = ap₂ (λ f n. record { input = f; remaining = n }) r.file_is r.len_is

      runs : merge_runs A limit left right ≡ to_run (loop (left.len + right.len) ls rs)
      runs =
          merge_runs-parts left right (reader_of A limit (tail A limit ls))
            (reader_of A limit (tail A limit rs)) (head A limit ls) (head A limit rs)
            (ap (next_record A limit) opened_left ∙ next_record-reader_of A limit ls l.held)
            (ap (next_record A limit) opened_right ∙ next_record-reader_of A limit rs r.held)
