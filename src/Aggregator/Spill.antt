-- ===== src/Aggregator/Spill.antt =====
-- Spilled runs of accumulators: crates/raster-h3-core/src/aggregator/multi_horizon/spill.rs. A file
-- is its bytes; a write succeeds. The message of an error is left out, its kind is kept.
pub mod Records
pub mod Merging
pub mod Loop
pub mod Made
pub mod Writing
pub mod Levels
pub mod Push
pub mod Finish
pub mod Pushed
pub mod Continuous
pub mod Categorical
mod Tests
use raster_h.Common.{
  ℕ, zero, suc, ◌+◌, ◌-◌, ◌/◌, ◌^◌, ◌≤◌, ◌<◌, ◌≡◌, Bool, true, false, Option, none, some, List, [],
  ◌∷◌, ◌++◌, length, take, drop, ltb, leb, ◌==◌, if◌then◌else◌, Result, ok, err, ◌>>=◌,
  io_unexpected_eof, io_invalid_data,
}
use raster_h.Common.Bytes.{to_le_bytes, from_le_bytes}

-- The trait, with what its implementations promise: a state that is within the limit is read back
-- as it was written.
pub record SpillAccumulator (A : Type 0) : Type 1 where
  pub write_state : A → List ℕ
  pub read_state : ℕ → List ℕ → Result (A × List ℕ)
  pub memory_bytes : A → ℕ
  pub merge : A → A → A
  pub IsState : A → Type 0
  pub merge-IsState : (a b : A) → IsState a → IsState b → IsState (merge a b)
  pub read_state-write_state :
      (limit : ℕ) (a : A) (rest : List ℕ)
      → IsState a
      → memory_bytes a ≤ limit
      → read_state limit (write_state a ++ rest) ≡ ok (a, rest)

abbrev pub write_u64 : ℕ → List ℕ
write_u64 v = to_le_bytes 8 v

unfoldable pub read_exact : ℕ → List ℕ → Result (List ℕ × List ℕ)
read_exact n input =
    if leb n (length input) then ok (take n input, drop n input) else err io_unexpected_eof

unfoldable pub read_u64 : List ℕ → Result (ℕ × List ℕ)
unfolding read_exact
read_u64 input = do (bytes, rest) ← read_exact 8 input; ok (from_le_bytes bytes, rest)

unfoldable pub count : ℕ → List ℕ → Result (ℕ × List ℕ)
unfolding read_u64
count limit input = do
  (n, rest) ← read_u64 input
  if ltb (limit / 64) n then err io_invalid_data else ok (n, rest)

pub record Run : Type 0 where
  pub file : List ℕ
  pub len : ℕ

-- The reader of a run: the bytes that are left and how many records they should hold.
pub record RunReader : Type 0 where
  pub input : List ℕ
  pub remaining : ℕ

pub record SpillRuns : Type 0 where
  pub levels : List (Option Run)
  pub runs_written : ℕ
  pub bytes_written : ℕ

abbrev pub new : SpillRuns
new = record { levels = []; runs_written = 0; bytes_written = 0 }

abbrev pub open_run : Run → RunReader
open_run run = record { input = run.file; remaining = run.len }

module _ (A : Type 0) ⦃acc : SpillAccumulator A⦄ (limit : ℕ) where
  unfoldable pub next_record : RunReader → Result (Option (ℕ × A) × RunReader)
  unfolding read_u64
  next_record r = elim (r.remaining == 0) [
    | true ↦ ok (none, r)
    | false ↦ do
      (key, more) ← read_u64 r.input
      (value, rest) ← acc.read_state limit more
      ok (some (key, value), record { input = rest; remaining = r.remaining - 1 })
  ]

  abbrev pub record_bytes : ℕ × A → List ℕ
  record_bytes (key, a) = write_u64 key ++ acc.write_state a

  -- The loop of `push_sorted`: the bytes and the number of the records.
  unfoldable pub write_sorted : Option ℕ → List (ℕ × A) → Result (List ℕ × ℕ)
  write_sorted previous [] = ok ([], 0)
  write_sorted previous ((key, a) ∷ records) =
      let rest = write_sorted (some key) records in
      if elim previous [ none ↦ false | some p ↦ leb key p ]
      then err io_invalid_data
      else if ltb limit (acc.memory_bytes a)
      then err io_invalid_data
      else do (out, len) ← rest; ok (record_bytes (key, a) ++ out, len + 1)

  -- A record in front of what the loop writes behind it.
  abbrev pub then_write : ℕ × A → Result (List ℕ × ℕ) → Result (List ℕ × ℕ)
  then_write e rest = do (out, len) ← rest; ok (record_bytes e ++ out, len + 1)

  -- The loop of `merge`: the records in hand, and the readers behind them. Each round writes a
  -- record, so as many rounds as there are records are enough.
  unfoldable pub merge_loop :
      ℕ → Option (ℕ × A) → RunReader → Option (ℕ × A) → RunReader → Result (List ℕ × ℕ)
  unfolding next_record
  merge_loop zero a left b right = ok ([], 0)
  merge_loop (suc fuel) none left none right = ok ([], 0)
  merge_loop (suc fuel) (some a) left none right = do
    (next, left') ← next_record left
    then_write a (merge_loop fuel next left' none right)
  merge_loop (suc fuel) none left (some b) right = do
    (next, right') ← next_record right
    then_write b (merge_loop fuel none left next right')
  merge_loop (suc fuel) (some a) left (some b) right = elim (ltb a.0 b.0) [
    | true ↦ do
      (next, left') ← next_record left
      then_write a (merge_loop fuel next left' (some b) right)
    | false ↦ elim (ltb b.0 a.0) [
      | true ↦ do
        (next, right') ← next_record right
        then_write b (merge_loop fuel (some a) left next right')
      | false ↦ elim (ltb limit (acc.memory_bytes (acc.merge a.1 b.1))) [
        | true ↦ err io_invalid_data
        | false ↦ do
          (next_a, left') ← next_record left
          (next_b, right') ← next_record right
          then_write (a.0, acc.merge a.1 b.1) (merge_loop fuel next_a left' next_b right')
      ]
    ]
  ]

  unfoldable pub merge_runs : Run → Run → Result Run
  unfolding merge_loop
  merge_runs left right = do
    (a, left') ← next_record (open_run left)
    (b, right') ← next_record (open_run right)
    (file, len) ← merge_loop (left.len + right.len) a left' b right'
    ok (record { file = file; len = len })

  -- The carry of a run through the levels from `level` on: what they are afterwards, with the bytes
  -- that merges wrote, and whether it went through. A level that was taken stays empty on an error.
  unfoldable pub carry : ℕ → Run → List (Option Run) → Result (Unit {0}) × List (Option Run) × ℕ
  unfolding merge_runs
  carry level run [] =
      if level == 64 then (err io_invalid_data, [], 0) else (ok tt, some run ∷ [], 0)
  carry level run (none ∷ levels) =
      if level == 64 then (err io_invalid_data, none ∷ levels, 0) else (ok tt, some run ∷ levels, 0)
  carry level run (some other ∷ levels) = elim (level == 64) [
    | true ↦ (err io_invalid_data, some other ∷ levels, 0)
    | false ↦ elim (merge_runs other run) [
      | err x ↦ (err x, none ∷ levels, 0)
      | ok merged ↦
          let (r, levels', bytes) = carry (level + 1) merged levels in
          (r, none ∷ levels', length merged.file + bytes)
    ]
  ]

  unfoldable pub push_sorted : List (ℕ × A) → SpillRuns → Result (Unit {0}) × SpillRuns
  unfolding write_sorted carry
  push_sorted records s = elim (write_sorted none records) [
    | err x ↦ (err x, s)
    | ok (out, len) ↦ elim (len == 0) [
      | true ↦ (ok tt, s)
      | false ↦
          let (r, levels, bytes) = carry 0 (record { file = out; len = len }) s.levels in
          (
            r,
            record {
              levels = levels;
              runs_written = s.runs_written + 1;
              bytes_written = s.bytes_written + length out + bytes;
            },
          )
    ]
  ]

  -- The loop of `finish` with the run that the levels before combine to. A level is taken, and stays
  -- empty on an error; what is answered with the levels is the bytes that merges wrote.
  unfoldable pub combine :
      Option Run → List (Option Run) → Result (Option Run) × List (Option Run) × ℕ
  unfolding merge_runs
  combine combined [] = (ok combined, [], 0)
  combine combined (none ∷ levels) =
      let (r, levels', bytes) = combine combined levels in (r, none ∷ levels', bytes)
  combine none (some run ∷ levels) =
      let (r, levels', bytes) = combine (some run) levels in (r, none ∷ levels', bytes)
  combine (some other) (some run ∷ levels) = elim (merge_runs run other) [
    | err x ↦ (err x, none ∷ levels, 0)
    | ok merged ↦
        let (r, levels', bytes) = combine (some merged) levels in
        (r, none ∷ levels', length merged.file + bytes)
  ]

  unfoldable pub finish : SpillRuns → Result (Option RunReader) × SpillRuns
  unfolding combine
  finish s =
      let (r, levels, bytes) = combine none s.levels in
      (
        do combined ← r; ok (elim combined [ none ↦ none | some run ↦ some (open_run run) ]),
        record {
          levels = levels;
          runs_written = s.runs_written;
          bytes_written = s.bytes_written + bytes;
        },
      )
