-- ===== src/Aggregator/Spill/Writing.antt =====
-- The records that a push writes: crates/raster-h3-core/src/aggregator/multi_horizon/spill.rs.
use raster_h.Common.{
  ℕ, ◌^◌, ◌≤◌, ◌<◌, ◌≡◌, refl, ap, ◌∙◌, Bool, true, false, Option, none, some, List, [], ◌∷◌, All,
  ltb, leb, if-elim, Result, err, arith, ◌⊎◌, inl, inr, io_invalid_data,
}
use raster_h.Aggregator.Spill.{SpillAccumulator, write_sorted, then_write}
use raster_h.Aggregator.Spill.Records.{
  Records, Holds, Above, Above-trans, Sorted, records_bytes, written, then_write-written,
}

module _ (A : Type 0) ⦃acc : SpillAccumulator A⦄ (limit : ℕ) where
  -- A record that may be pushed: a u64 for its key and a proper state.
  abbrev pub Proper : ℕ × A → Type 0
  Proper e = (e.0 < 2 ^ 64) × acc.IsState e.1

  unfoldable pub Follows : Option ℕ → Records A limit → Type 0
  Follows none es = Unit {0}
  Follows (some p) es = Above A limit p es

  -- What the loop of `push_sorted` does with the records: it writes them all, or refuses them where
  -- they are not sorted or too large.
  abbrev pub Accepted : Option ℕ → Records A limit → Type 0
  Accepted previous es = Follows previous es × Sorted A limit es × All (Holds A limit) es

  abbrev pub MayWrite : Option ℕ → Records A limit → Result (List ℕ × ℕ) → Type 0
  MayWrite previous es r =
      ((r ≡ err io_invalid_data) × ¬ Accepted previous es)
      ⊎ ((r ≡ written A limit es) × Accepted previous es)

  abbrev late : Option ℕ → ℕ → Bool
  late previous key = elim previous [ none ↦ false | some p ↦ leb key p ]

  Follows-late :
      (previous : Option ℕ) (key : ℕ) (a : A) (es : Records A limit)
      → late previous key ≡ false
      → Above A limit key es
      → Follows previous ((key, a) ∷ es)
  unfolding Follows
  Follows-late none key a es f h = tt
  Follows-late (some p) key a es f h =
      let below : p < key = ground arith in (below, Above-trans A limit p key es (omega arith) h)

  late-Follows :
      (previous : Option ℕ) (key : ℕ) (a : A) (es : Records A limit)
      → late previous key ≡ true
      → ¬ Follows previous ((key, a) ∷ es)
  unfolding Follows
  late-Follows none key a es t h = ground arith
  late-Follows (some p) key a es t h = let first = h.0 in ground arith

  too_large : (a : A) → ltb limit (acc.memory_bytes a) ≡ true → ¬ (acc.memory_bytes a ≤ limit)
  too_large a large small = ground arith

  -- A record in front of what the loop does with the others.
  first_written :
      (previous : Option ℕ) (key : ℕ) (a : A) (es : Records A limit) (r : Result (List ℕ × ℕ))
      → Proper (key, a)
      → late previous key ≡ false
      → acc.memory_bytes a ≤ limit
      → MayWrite (some key) es r
      → MayWrite previous ((key, a) ∷ es) (then_write A limit (key, a) r)
  unfolding Sorted Follows
  first_written previous key a es r proper f small (inl (failed, refused)) =
      inl
        (ap (then_write A limit (key, a)) failed, λ all. refused ((all.1).0, (all.1).1, (all.2).1))
  first_written previous key a es r proper f small (inr (writes, (follows, sorted, held))) = inr (
    ap (then_write A limit (key, a)) writes ∙ then_write-written A limit (key, a) es,
    (
      Follows-late previous key a es f follows,
      (follows, sorted),
      ((proper.0, proper.1, small), held),
    ),
  )

  pub write_sorted-MayWrite :
      (previous : Option ℕ) (es : Records A limit)
      → All Proper es
      → MayWrite previous es (write_sorted A limit previous es)
  unfolding write_sorted Sorted records_bytes Follows
  write_sorted-MayWrite none [] h = inr (refl, (tt, tt, tt))
  write_sorted-MayWrite (some p) [] h = inr (refl, (tt, tt, tt))
  write_sorted-MayWrite previous ((key, a) ∷ es) h =
      if-elim (MayWrite previous ((key, a) ∷ es)) (late previous key) _ _
        (λ t. inl (refl, λ all. late-Follows previous key a es t (all.0)))
        (λ f.
          if-elim (MayWrite previous ((key, a) ∷ es)) (ltb limit (acc.memory_bytes a)) _ _
            (λ large. inl (refl, λ all. too_large a large (((all.2).0).2)))
            (λ small.
              first_written previous key a es (write_sorted A limit (some key) es) (h.0) f
                (ground arith) (write_sorted-MayWrite (some key) es h.1)))
