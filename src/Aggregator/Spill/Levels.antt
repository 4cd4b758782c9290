-- ===== src/Aggregator/Spill/Levels.antt =====
-- The levels of runs of crates/raster-h3-core/src/aggregator/multi_horizon/spill.rs: the
-- pushed records that they were made of, and what a carry does to them.
use raster_h.Common.{
  ℕ, ◌+◌, ◌≤◌, ◌≡◌, refl, ap, sym, ◌∙◌, subst, true, false, Option, none, some, List, [], ◌∷◌, ◌++◌,
  length, ◌==◌, Result, ok, err, arith, ◌⊎◌, inl, inr, Bool-cases, io_invalid_data, if-elim,
  append-nil, append_assoc,
}
use raster_h.Aggregator.Spill.{SpillAccumulator, Run, merge_runs, carry}
use raster_h.Aggregator.Spill.Records.{Records, IsRun}
use raster_h.Aggregator.Spill.Made.{AllMade, AllMade-join, TooLarge, Clash-TooLarge}
use raster_h.Aggregator.Spill.Loop.{merge_runs-MergesTo}

module _ (A : Type 0) ⦃acc : SpillAccumulator A⦄ (limit : ℕ) where
  -- A level and the pushed records that its run was made of.
  abbrev pub IsLevel : Option Run → Records A limit → Type 0
  IsLevel none from = from ≡ []
  IsLevel (some run) from = (es : Records A limit) × IsRun A limit run es × AllMade A limit es from

  unfoldable pub IsLevels : List (Option Run) → List (Records A limit) → Type 0
  IsLevels [] [] = Unit {0}
  IsLevels (l ∷ ls) (from ∷ froms) = IsLevel l from × IsLevels ls froms
  IsLevels _ _ = ⊥

  -- What all levels were made of: the records of the higher ones are the older ones.
  unfoldable pub history : List (Records A limit) → Records A limit
  history [] = []
  history (from ∷ froms) = history froms ++ from

  -- What the levels are after a run was added.
  abbrev pub AddsTo : List (Records A limit) → Records A limit → List (Option Run) → Type 0
  AddsTo froms from levels =
      (froms' : List (Records A limit)) × IsLevels levels froms'
      × (history froms' ≡ history froms ++ from)

  abbrev pub MayCarry :
      ℕ
      → List (Option Run)
      → List (Records A limit)
      → Records A limit
      → Result (Unit {0}) × List (Option Run) × ℕ
      → Type 0
  MayCarry level levels froms from c =
      ((c.0 ≡ err io_invalid_data)
        × (TooLarge A limit (history froms ++ from) ⊎ (64 ≤ level + length levels)))
      ⊎ ((c.0 ≡ ok tt) × AddsTo froms from (c.1))

  -- The round of the loop at a level that is taken.
  carry_exhausted :
      (level : ℕ) (run other : Run) (levels : List (Option Run))
      → (level == 64) ≡ true
      → carry A limit level run (some other ∷ levels)
        ≡ (err io_invalid_data, some other ∷ levels, 0)
  unfolding carry
  carry_exhausted level run other levels t = rw (carry, t) refl

  carry_failed :
      (level : ℕ) (run other : Run) (levels : List (Option Run))
      → (level == 64) ≡ false
      → merge_runs A limit other run ≡ err io_invalid_data
      → carry A limit level run (some other ∷ levels) ≡ (err io_invalid_data, none ∷ levels, 0)
  unfolding carry
  carry_failed level run other levels f failed = rw (carry, f, failed) refl

  abbrev behind :
      ℕ → Result (Unit {0}) × List (Option Run) × ℕ → Result (Unit {0}) × List (Option Run) × ℕ
  behind n c = (c.0, none ∷ c.1, n + c.2)

  carry_merged :
      (level : ℕ) (run other merged : Run) (levels : List (Option Run))
      → (level == 64) ≡ false
      → merge_runs A limit other run ≡ ok merged
      → carry A limit level run (some other ∷ levels)
        ≡ behind (length merged.file) (carry A limit (level + 1) merged levels)
  unfolding carry
  carry_merged level run other merged levels f merges = rw (carry, f, merges) refl

  next :
      (level : ℕ) (e from : Records A limit) (levels : List (Option Run))
      (froms : List (Records A limit)) (c : Result (Unit {0}) × List (Option Run) × ℕ) (n : ℕ)
      → MayCarry (level + 1) levels froms (e ++ from) c
      → ((o : Option Run) → MayCarry level (o ∷ levels) (e ∷ froms) from (behind n c))
  unfolding IsLevels history
  next level e from levels froms c n (inl (failed, inl large)) o =
      inl (failed, inl (subst (TooLarge A limit) (sym (append_assoc (history froms) e from)) large))
  next level e from levels froms c n (inl (failed, inr many)) o = inl (failed, inr (omega arith))
  next level e from levels froms c n (inr (went, (froms', is_levels, same))) o = inr (
    went,
    (
      [] ∷ froms',
      (refl, is_levels),
      append-nil (history froms') ∙ same ∙ sym (append_assoc (history froms) e from),
    ),
  )

  pub carry-MayCarry :
      (level : ℕ) (run : Run) (es from : Records A limit) (levels : List (Option Run))
      (froms : List (Records A limit))
      → IsRun A limit run es
      → AllMade A limit es from
      → IsLevels levels froms
      → MayCarry level levels froms from (carry A limit level run levels)
  unfolding carry IsLevels history
  carry-MayCarry level run es from [] [] r m h =
      if-elim (MayCarry level [] [] from) (level == 64) _ _ (λ t. inl (refl, inr (ground arith)))
        (λ f. inr (refl, (from ∷ [], ((es, r, m), tt), refl)))
  carry-MayCarry level run es from (none ∷ levels) (e ∷ froms) r m (p, h) =
      if-elim (MayCarry level (none ∷ levels) (e ∷ froms) from) (level == 64) _ _
        (λ t. inl (refl, inr (ground arith)))
        (λ f. inr (
          refl,
          (
            from ∷ froms,
            ((es, r, m), h),
            ap (λ t. t ++ from) (sym (ap (λ t. history froms ++ t) p ∙ append-nil (history froms))),
          ),
        ))
  carry-MayCarry level run es from (some other ∷ levels) (e ∷ froms) r m ((os, o, n), h) =
      elim (Bool-cases (level == 64)) [
        | inl t ↦
            subst (MayCarry level (some other ∷ levels) (e ∷ froms) from)
              (sym (carry_exhausted level run other levels t)) (inl (refl, inr (ground arith)))
        | inr f ↦ elim (merge_runs-MergesTo A limit other run os es o r) [
          | inl (failed, clash) ↦
              subst (MayCarry level (some other ∷ levels) (e ∷ froms) from)
                (sym (carry_failed level run other levels f failed))
                (inl (
                  refl,
                  inl (
                      subst (TooLarge A limit) (sym (append_assoc (history froms) e from))
                        (Clash-TooLarge A limit os es (history froms) e from n m clash)),
                ))
          | inr (merged, both, merges, is_run, joins) ↦
              subst (MayCarry level (some other ∷ levels) (e ∷ froms) from)
                (sym (carry_merged level run other merged levels f merges))
                (next level e from levels froms (carry A limit (level + 1) merged levels)
                  (length merged.file)
                  (carry-MayCarry (level + 1) merged both (e ++ from) levels froms is_run
                    (AllMade-join A limit both os es e from joins n m) h)
                  (some other))
        ]
      ]
  carry-MayCarry level run es from [] (e ∷ froms) r m h = elim h [ ]
  carry-MayCarry level run es from (none ∷ levels) [] r m h = elim h [ ]
  carry-MayCarry level run es from (some other ∷ levels) [] r m h = elim h [ ]
