-- ===== src/Aggregator/Spill/Finish.antt =====
-- The end of a spill, crates/raster-h3-core/src/aggregator/multi_horizon/spill.rs: the merge of
-- the levels.
use raster_h.Common.{
  ℕ, ◌≡◌, refl, ap, sym, ◌∙◌, subst, Option, none, some, List, [], ◌∷◌, ◌++◌, Result, ok, err,
  io_invalid_data, ◌⊎◌, inl, inr, append-nil, append_assoc,
}
use raster_h.Aggregator.Spill.{SpillAccumulator, Run, merge_runs, combine}
use raster_h.Aggregator.Spill.Records.{Records}
use raster_h.Aggregator.Spill.Made.{AllMade-join, TooLarge, Clash-TooLarge}
use raster_h.Aggregator.Spill.Loop.{merge_runs-MergesTo}
use raster_h.Aggregator.Spill.Levels.{IsLevel, IsLevels, history}

module _ (A : Type 0) ⦃acc : SpillAccumulator A⦄ (limit : ℕ) where
  -- What the levels combine to: nothing, or a run made of all that they were made of.
  abbrev pub MayCombine : Records A limit → Result (Option Run) → Type 0
  MayCombine from r =
      ((r ≡ err io_invalid_data) × TooLarge A limit from)
      ⊎ (run : Option Run) × (r ≡ ok run) × IsLevel A limit run from

  combine_failed :
      (other run : Run) (levels : List (Option Run))
      → merge_runs A limit run other ≡ err io_invalid_data
      → (combine A limit (some other) (some run ∷ levels)).0 ≡ err io_invalid_data
  unfolding combine
  combine_failed other run levels failed = rw (combine, failed) refl

  combine_merged :
      (other run merged : Run) (levels : List (Option Run))
      → merge_runs A limit run other ≡ ok merged
      → (combine A limit (some other) (some run ∷ levels)).0
        ≡ (combine A limit (some merged) levels).0
  unfolding combine
  combine_merged other run merged levels merges = rw (combine, merges) refl

  pub combine-MayCombine :
      (combined : Option Run) (from : Records A limit) (levels : List (Option Run))
      (froms : List (Records A limit))
      → IsLevel A limit combined from
      → IsLevels A limit levels froms
      → MayCombine (history A limit froms ++ from) (combine A limit combined levels).0
  unfolding combine IsLevels history
  combine-MayCombine combined from [] [] c h = inr (combined, refl, c)
  combine-MayCombine combined from (none ∷ levels) (e ∷ froms) c (p, h) =
      subst (λ t. MayCombine (t ++ from) (combine A limit combined levels).0)
        (sym (ap (λ t. history A limit froms ++ t) p ∙ append-nil (history A limit froms)))
        (combine-MayCombine combined from levels froms c h)
  combine-MayCombine none from (some run ∷ levels) (e ∷ froms) c (r, h) =
      subst (λ t. MayCombine t (combine A limit (some run) levels).0)
        (sym
          (ap (λ t. (history A limit froms ++ e) ++ t) c ∙ append-nil (history A limit froms ++ e)))
        (combine-MayCombine (some run) e levels froms r h)
  combine-MayCombine (some other) from (some run ∷ levels) (e ∷ froms) (os, o, n) ((es, r, m), h) =
      subst (λ t. MayCombine t (combine A limit (some other) (some run ∷ levels)).0)
        (sym (append_assoc (history A limit froms) e from))
        (elim (merge_runs-MergesTo A limit run other es os r o) [
          | inl (failed, clash) ↦ inl (
            combine_failed other run levels failed,
            Clash-TooLarge A limit es os (history A limit froms) e from m n clash,
          )
          | inr (merged, both, merges, is_run, joins) ↦
              subst (MayCombine (history A limit froms ++ (e ++ from)))
                (sym (combine_merged other run merged levels merges))
                (combine-MayCombine (some merged) (e ++ from) levels froms
                  (both, is_run, AllMade-join A limit both es os e from joins m n) h)
        ])
  combine-MayCombine combined from [] (e ∷ froms) c h = elim h [ ]
  combine-MayCombine combined from (none ∷ levels) [] c h = elim h [ ]
  combine-MayCombine none from (some run ∷ levels) [] c h = elim h [ ]
  combine-MayCombine (some other) from (some run ∷ levels) [] c h = elim h [ ]
