-- ===== src/Aggregator/Spill/Records.antt =====
-- Files of runs of crates/raster-h3-core/src/aggregator/multi_horizon/spill.rs as lists of records.
use raster_h.Common.{
  ℕ, suc, ◌+◌, ◌-◌, ◌^◌, ◌≤◌, ◌<◌, ◌≡◌, refl, ap, ◌∙◌, true, false, Option, none, some, List, [],
  ◌∷◌, ◌++◌, append_assoc, length, take_front, drop_front, length-append, All, leb, ◌==◌, Result,
  ok, arith,
}
use raster_h.Common.Bytes.{from_le_bytes, from_le_bytes-u64, length-to_le_bytes}
use raster_h.Aggregator.Spill.{
  SpillAccumulator, RunReader, Run, write_u64, read_exact, read_u64, next_record, record_bytes,
  then_write,
}

pub read_exact-append :
    (n : ℕ) (bs rest : List ℕ) → length bs ≡ n → read_exact n (bs ++ rest) ≡ ok (bs, rest)
unfolding read_exact
read_exact-append n bs rest h = rw (enough, take_front n bs rest h, drop_front n bs rest h) refl
  where
    enough : leb n (length (bs ++ rest)) ≡ true
    enough = ground (arith, length-append bs rest, h)

read_u64-parts :
    (input bytes rest : List ℕ)
    → read_exact 8 input ≡ ok (bytes, rest)
    → read_u64 input ≡ ok (from_le_bytes bytes, rest)
unfolding read_u64
read_u64-parts input bytes rest h = rw (read_u64, h) refl

pub read_u64-write_u64 :
    (v : ℕ) (rest : List ℕ) → v < 2 ^ 64 → read_u64 (write_u64 v ++ rest) ≡ ok (v, rest)
read_u64-write_u64 v rest h =
    read_u64-parts (write_u64 v ++ rest) (write_u64 v) rest
      (read_exact-append 8 (write_u64 v) rest (length-to_le_bytes 8 v))
    ∙ ap (λ n. ok (n, rest)) (from_le_bytes-u64 v h)

module _ (A : Type 0) ⦃acc : SpillAccumulator A⦄ (limit : ℕ) where
  abbrev pub Records : Type 0
  Records = List (ℕ × A)

  -- A record that a run may hold: a u64 for its key, a proper state within the limit.
  abbrev pub Holds : ℕ × A → Type 0
  Holds e = (e.0 < 2 ^ 64) × acc.IsState e.1 × (acc.memory_bytes e.1 ≤ limit)

  abbrev pub Above : ℕ → Records → Type 0
  Above k es = All (λ e. k < e.0) es

  pub Above-trans : (j k : ℕ) (es : Records) → j ≤ k → Above k es → Above j es
  Above-trans j k [] le h = tt
  Above-trans j k (e ∷ es) le h = let first = h.0 in (omega arith, Above-trans j k es le h.1)

  unfoldable pub Sorted : Records → Type 0
  Sorted [] = Unit {0}
  Sorted (e ∷ es) = Above e.0 es × Sorted es

  unfoldable pub records_bytes : Records → List ℕ
  records_bytes [] = []
  records_bytes (e ∷ es) = record_bytes A limit e ++ records_bytes es

  abbrev pub reader_of : Records → RunReader
  reader_of es = record { input = records_bytes es; remaining = length es }

  abbrev pub head : Records → Option (ℕ × A)
  head [] = none
  head (e ∷ es) = some e

  abbrev pub tail : Records → Records
  tail [] = []
  tail (e ∷ es) = es

  next_record-parts :
      (n key : ℕ) (input more rest : List ℕ) (value : A)
      → read_u64 input ≡ ok (key, more)
      → acc.read_state limit more ≡ ok (value, rest)
      → next_record A limit (record { input = input; remaining = suc n })
        ≡ ok (some (key, value), record { input = rest; remaining = suc n - 1 })
  unfolding next_record
  next_record-parts n key input more rest value p q =
      let some_left : (suc n == 0) ≡ false = ground arith in rw (next_record, some_left, p, q) refl

  -- The next record of a reader is the first of those that are left.
  pub next_record-reader_of :
      (es : Records)
      → All Holds es
      → next_record A limit (reader_of es) ≡ ok (head es, reader_of (tail es))
  unfolding next_record records_bytes
  next_record-reader_of [] h = refl
  next_record-reader_of ((k, a) ∷ es) h =
      next_record-parts (length es) k (records_bytes ((k, a) ∷ es))
        (acc.write_state a ++ records_bytes es) (records_bytes es) a
        (ap read_u64 (append_assoc (write_u64 k) (acc.write_state a) (records_bytes es))
          ∙ read_u64-write_u64 k (acc.write_state a ++ records_bytes es) (h.0).0)
        (acc.read_state-write_state limit a (records_bytes es) (h.0).1 (h.0).2)
      ∙ ap (λ n. ok (some (k, a), record { input = records_bytes es; remaining = n }))
          (let e : suc (length es) - 1 ≡ length es = omega arith in e)

  -- What a written run is.
  pub record IsRun (run : Run) (es : Records) : Type 0 where
    pub file_is : run.file ≡ records_bytes es
    pub len_is : run.len ≡ length es
    pub sorted : Sorted es
    pub held : All Holds es

  abbrev pub written : Records → Result (List ℕ × ℕ)
  written es = ok (records_bytes es, length es)

  pub then_write-written :
      (e : ℕ × A) (es : Records) → then_write A limit e (written es) ≡ written (e ∷ es)
  unfolding records_bytes
  then_write-written e es =
      ap (λ n. ok (record_bytes A limit e ++ records_bytes es, n))
        (let z : length es + 1 ≡ suc (length es) = omega arith in z)
