-- ===== src/Aggregator/Spill/Pushed.antt =====
-- A whole spill, crates/raster-h3-core/src/aggregator/multi_horizon/spill.rs: after any pushes that went
-- through, the reader that `finish` answers.
use raster_h.Common.{
  ℕ, ◌≡◌, refl, ap, ap₂, sym, ◌∙◌, subst, Bool-cases, Option, none, some, List, [], ◌∷◌, ◌++◌, ◌==◌,
  if◌then◌else◌, All, Result, ok, err, io_invalid_data, ◌⊎◌, inl, inr, ◌>>=◌, append-nil,
}
use raster_h.Aggregator.Spill.{
  SpillAccumulator, SpillRuns, RunReader, Run, new, next_record, push_sorted, combine, finish,
  open_run,
}
use raster_h.Aggregator.Spill.Records.{Records, Holds, Sorted, reader_of, next_record-reader_of}
use raster_h.Aggregator.Spill.Writing.{Proper}
use raster_h.Aggregator.Spill.Merging.{under}
use raster_h.Aggregator.Spill.Made.{MergeOf, single, merge_of, Made, AllMade, TooLarge}
use raster_h.Aggregator.Spill.Levels.{IsLevel, IsLevels, history}
use raster_h.Aggregator.Spill.Push.{IsRuns, MayPush, push_sorted-MayPush}
use raster_h.Aggregator.Spill.Finish.{MayCombine, combine-MayCombine}

-- A measure of accumulators that merging adds up, in an order that is kept.
pub record Weight (A : Type 0) ⦃acc : SpillAccumulator A⦄ : Type 1 where
  pub M : Type 0
  pub unit : M
  pub op : M → M → M
  pub op_assoc : (x y z : M) → op (op x y) z ≡ op x (op y z)
  pub unit_left : (x : M) → op unit x ≡ x
  pub unit_right : (x : M) → op x unit ≡ x
  pub weigh : A → M
  pub weigh-merge : (a b : A) → weigh (acc.merge a b) ≡ op (weigh a) (weigh b)

module _ (A : Type 0) ⦃acc : SpillAccumulator A⦄ (w : Weight A) (limit : ℕ) where
  -- The weight of the records under a key.
  unfoldable pub total : ℕ → Records A limit → w.M
  total k [] = w.unit
  total k ((j, a) ∷ es) = let rest = total k es in if j == k then w.op (w.weigh a) rest else rest

  sum_of : List A → w.M
  sum_of [] = w.unit
  sum_of (a ∷ as') = w.op (w.weigh a) (sum_of as')

  total-under : (k : ℕ) (es : Records A limit) → total k es ≡ sum_of (under A limit k es)
  unfolding total under sum_of
  total-under k [] = refl
  total-under k ((j, a) ∷ es) = elim (Bool-cases (j == k)) [
    | inl same ↦ rw same (ap (w.op (w.weigh a)) (total-under k es))
    | inr other ↦ rw other (total-under k es)
  ]

  sum_of-append : (xs ys : List A) → sum_of (xs ++ ys) ≡ w.op (sum_of xs) (sum_of ys)
  unfolding sum_of
  sum_of-append [] ys = sym (w.unit_left (sum_of ys))
  sum_of-append (a ∷ xs) ys =
      ap (w.op (w.weigh a)) (sum_of-append xs ys)
      ∙ sym (w.op_assoc (w.weigh a) (sum_of xs) (sum_of ys))

  weigh-MergeOf : {a : A} {xs : List A} → MergeOf A limit a xs → w.weigh a ≡ sum_of xs
  unfolding sum_of
  weigh-MergeOf (single a) = sym (w.unit_right (w.weigh a))
  weigh-MergeOf (merge_of a b xs ys p q) =
      w.weigh-merge a b ∙ ap₂ w.op (weigh-MergeOf p) (weigh-MergeOf q) ∙ sym (sum_of-append xs ys)

  sum_of-Made : (xs from : List A) → Made A limit xs from → sum_of xs ≡ sum_of from
  unfolding sum_of
  sum_of-Made [] from m = sym (ap sum_of m)
  sum_of-Made (a ∷ []) from m = w.unit_right (w.weigh a) ∙ weigh-MergeOf m
  sum_of-Made (a ∷ b ∷ xs) from m = elim m [ ]

  -- The spills that pushes lead to, with the records that were pushed, the oldest first.
  pub data Pushed : SpillRuns → Records A limit → Type 0 where
    unspilled : Pushed new []
    push :
        (s s' : SpillRuns) (all es : Records A limit)
        → Pushed s all
        → All (Proper A limit) es
        → push_sorted A limit es s ≡ (ok tt, s')
        → Pushed s' (all ++ es)

  -- What a reader answers, call after call, up to its end.
  unfoldable pub Reads : RunReader → Records A limit → Type 0
  Reads r [] = next_record A limit r ≡ ok (none, r)
  Reads r (e ∷ es) = (r' : RunReader) × (next_record A limit r ≡ ok (some e, r')) × Reads r' es

  reader_of-Reads :
      (es : Records A limit) → All (Holds A limit) es → Reads (reader_of A limit es) es
  unfolding Reads
  reader_of-Reads [] h = next_record-reader_of A limit [] h
  reader_of-Reads (e ∷ es) h =
      (reader_of A limit es, next_record-reader_of A limit (e ∷ es) h, reader_of-Reads es h.1)

  -- The levels of a spill were made of what was pushed.
  abbrev Keeps : SpillRuns → Records A limit → Type 0
  Keeps s all =
      (froms : List (Records A limit)) × IsRuns A limit s froms × (history A limit froms ≡ all)

  kept :
      (s s' : SpillRuns) (all es : Records A limit) (froms : List (Records A limit))
      → history A limit froms ≡ all
      → MayPush A limit es s froms (ok tt, s')
      → Keeps s' (all ++ es)
  kept s s' all es froms same (inl (failed, unchanged, refused)) = cc
  kept s s' all es froms same (inr (inl (failed, accepted, large))) = cc
  kept s s' all es froms same (inr (inr (done, accepted, (froms', levels, sum)))) =
      (froms', levels, sum ∙ ap (λ t. t ++ es) same)

  Pushed-Keeps : {s : SpillRuns} {all : Records A limit} → Pushed s all → Keeps s all
  unfolding IsLevels history
  Pushed-Keeps unspilled = ([], tt, refl)
  Pushed-Keeps (push s s' all es earlier proper went) =
      let (froms, is_runs, same) = Pushed-Keeps earlier in
      kept s s' all es froms same (
        subst (MayPush A limit es s froms) went
          (push_sorted-MayPush A limit es s froms proper is_runs))

  abbrev IsReader : Option RunReader → Records A limit → Type 0
  IsReader none es = es ≡ []
  IsReader (some r) es = Reads r es

  -- A merge was refused for its size, or the reader answers records in order, each a merge of those
  -- pushed under its key, with their weights.
  unfoldable pub Finishes : Records A limit → Result (Option RunReader) → Type 0
  Finishes all r =
      ((r ≡ err io_invalid_data) × TooLarge A limit all)
      ⊎ (reader : Option RunReader) × (es : Records A limit) × (r ≡ ok reader)
        × IsReader reader es
        × Sorted A limit es
        × AllMade A limit es all
        × ((k : ℕ) → total k es ≡ total k all)

  abbrev to_reader : Option Run → Option RunReader
  to_reader run = elim run [ none ↦ none | some run ↦ some (open_run run) ]

  run-Finishes :
      (run : Option Run) (all : Records A limit)
      → IsLevel A limit run all
      → Finishes all (ok (to_reader run))
  unfolding Finishes Sorted under total
  run-Finishes none all h = inr (none, [], refl, refl, tt, made, λ k. ap (total k) (sym h))
    where
      made : AllMade A limit [] all
      made k = ap (under A limit k) h
  run-Finishes (some run) all (es, r, m) = inr (
    some (open_run run),
    es,
    refl,
    subst (λ r. Reads r es)
        (sym (ap₂ (λ f n. record { input = f; remaining = n }) r.file_is r.len_is))
        (reader_of-Reads es r.held),
    r.sorted,
    m,
    λ k.
        total-under k es
        ∙ sum_of-Made (under A limit k es) (under A limit k all) (m k)
        ∙ sym (total-under k all),
  )

  -- After any pushes that went through, `finish` answers a reader of records in strict order. What a
  -- key has is a merge of all accumulators pushed under it, each once, in the order of the pushes,
  -- and has their weight; a key that was not pushed has nothing. It is refused only where two
  -- neighbouring parts of the pushed records, the last of them, merge under one key to accumulators
  -- whose merge is over the limit.
  pub finish-Finishes :
      (s : SpillRuns) (all : Records A limit) → Pushed s all → Finishes all (finish A limit s).0
  unfolding finish Finishes
  finish-Finishes s all pushed =
      let (froms, is_runs, same) = Pushed-Keeps pushed in
      elim (subst (λ t. MayCombine A limit t (combine A limit none s.levels).0)
        (append-nil (history A limit froms) ∙ same)
        (combine-MayCombine A limit none [] s.levels froms refl is_runs)) [
          | inl (failed, large) ↦ inl (ap (λ r. r >>= (λ run. ok (to_reader run))) failed, large)
          | inr (run, combined, is_level) ↦
              subst (Finishes all) (sym (ap (λ r. r >>= (λ run. ok (to_reader run))) combined))
                (run-Finishes run all is_level)
        ]
