-- ===== src/Aggregator/Spill/Push.antt =====
-- A push of records: crates/raster-h3-core/src/aggregator/multi_horizon/spill.rs.
use raster_h.Common.{
  ℕ, ◌+◌, ◌≤◌, ◌≡◌, refl, sym, subst, true, false, none, List, [], ◌∷◌, ◌++◌, append-nil, length,
  All, ◌==◌, Result, ok, err, arith, ◌⊎◌, inl, inr, io_invalid_data,
}
use raster_h.Aggregator.Spill.{SpillAccumulator, SpillRuns, Run, write_sorted, carry, push_sorted}
use raster_h.Aggregator.Spill.Records.{Records, records_bytes, IsRun}
use raster_h.Aggregator.Spill.Writing.{Proper, Accepted, write_sorted-MayWrite}
use raster_h.Aggregator.Spill.Made.{TooLarge, Sorted-AllMade}
use raster_h.Aggregator.Spill.Levels.{IsLevels, AddsTo, MayCarry, history, carry-MayCarry}

module _ (A : Type 0) ⦃acc : SpillAccumulator A⦄ (limit : ℕ) where
  -- The pushed records that the runs of a spill were made of, by levels.
  abbrev pub IsRuns : SpillRuns → List (Records A limit) → Type 0
  IsRuns s froms = IsLevels A limit s.levels froms

  -- What a push does: records that are not sorted or too large are refused and change nothing, a
  -- merge under some key may be too large, and otherwise the records are added.
  abbrev pub MayPush :
      Records A limit → SpillRuns → List (Records A limit) → Result (Unit {0}) × SpillRuns → Type 0
  MayPush es s froms p =
      ((p.0 ≡ err io_invalid_data) × (p.1 ≡ s) × ¬ Accepted A limit none es)
      ⊎ ((p.0 ≡ err io_invalid_data)
          × Accepted A limit none es
          × (TooLarge A limit (history A limit froms ++ es) ⊎ (64 ≤ length s.levels)))
      ⊎ ((p.0 ≡ ok tt) × Accepted A limit none es × AddsTo A limit froms es (p.1).levels)

  push_failed :
      (es : Records A limit) (s : SpillRuns)
      → write_sorted A limit none es ≡ err io_invalid_data
      → push_sorted A limit es s ≡ (err io_invalid_data, s)
  unfolding push_sorted
  push_failed es s failed = rw (push_sorted, failed) refl

  -- What a push does once the records are written.
  abbrev add_run : SpillRuns → List ℕ → ℕ → Result (Unit {0}) × SpillRuns
  add_run s out len =
      let c = carry A limit 0 (record { file = out; len = len }) s.levels in
      (
        c.0,
        record {
          levels = c.1;
          runs_written = s.runs_written + 1;
          bytes_written = s.bytes_written + length out + c.2;
        },
      )

  push_written :
      (es : Records A limit) (s : SpillRuns) (out : List ℕ) (len : ℕ)
      → write_sorted A limit none es ≡ ok (out, len)
      → push_sorted A limit es s ≡ elim (len == 0) [ true ↦ (ok tt, s) | false ↦ add_run s out len ]
  unfolding push_sorted
  push_written es s out len writes = rw (push_sorted, writes) refl

  pushed :
      (es : Records A limit) (s : SpillRuns) (froms : List (Records A limit))
      → Accepted A limit none es
      → IsRuns s froms
      → MayPush es s froms (elim (length es == 0) [
        | true ↦ (ok tt, s)
        | false ↦ add_run s (records_bytes A limit es) (length es)
      ])
  unfolding IsLevels
  pushed [] s froms accepted h =
      inr (inr (refl, accepted, (froms, h, sym (append-nil (history A limit froms)))))
  pushed (e ∷ es) s froms accepted h =
      let some_written : (length (e ∷ es) == 0) ≡ false = ground arith in
      subst
        (λ b. MayPush (e ∷ es) s froms (elim b [
          | true ↦ (ok tt, s)
          | false ↦ add_run s (records_bytes A limit (e ∷ es)) (length (e ∷ es))
        ]))
        (sym some_written)
        (from_carry (
          carry-MayCarry A limit 0 run (e ∷ es) (e ∷ es) s.levels froms is_run
            (Sorted-AllMade A limit (e ∷ es) accepted.1) h))
    where
      run : Run
      run = record { file = records_bytes A limit (e ∷ es); len = length (e ∷ es) }

      is_run : IsRun A limit run (e ∷ es)
      is_run = record { file_is = refl; len_is = refl; sorted = accepted.1; held = accepted.2 }

      from_carry :
          MayCarry A limit 0 s.levels froms (e ∷ es) (carry A limit 0 run s.levels)
          → MayPush (e ∷ es) s froms (add_run s (records_bytes A limit (e ∷ es)) (length (e ∷ es)))
      from_carry (inl (failed, inl large)) = inr (inl (failed, accepted, inl large))
      from_carry (inl (failed, inr many)) = inr (inl (failed, accepted, inr (omega arith)))
      from_carry (inr (went, adds)) = inr (inr (went, accepted, adds))

  pub push_sorted-MayPush :
      (es : Records A limit) (s : SpillRuns) (froms : List (Records A limit))
      → All (Proper A limit) es
      → IsRuns s froms
      → MayPush es s froms (push_sorted A limit es s)
  unfolding push_sorted
  push_sorted-MayPush es s froms proper h = elim (write_sorted-MayWrite A limit none es proper) [
    | inl (failed, refused) ↦
        subst (MayPush es s froms) (sym (push_failed es s failed)) (inl (refl, refl, refused))
    | inr (writes, accepted) ↦
        subst (MayPush es s froms)
          (sym (push_written es s (records_bytes A limit es) (length es) writes))
          (pushed es s froms accepted h)
  ]
