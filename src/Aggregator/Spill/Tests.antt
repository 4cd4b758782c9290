-- ===== src/Aggregator/Spill/Tests.antt =====
-- Runs of counts at concrete inputs: crates/raster-h3-core/src/aggregator/multi_horizon/spill.rs.
use raster_h.Common.{
  ℕ, zero, suc, ◌+◌, ◌≡◌, refl, ap, List, [], ◌∷◌, ◌++◌, Result, ok, err, ◌>>=◌, arith,
  io_invalid_data, io_unexpected_eof,
}
use raster_h.Aggregator.Spill.{SpillAccumulator, SpillRuns, new, push_sorted, finish}
use raster_h.Aggregator.Spill.Pushed.{Weight}
use raster_h.Aggregator.Spill.Pushed.{Pushed, unspilled, push, Finishes, finish-Finishes}

-- A count, written as so many ones.
abbrev write_ones : ℕ → List ℕ
write_ones zero = 0 ∷ []
write_ones (suc n) = 1 ∷ write_ones n

abbrev read_ones : List ℕ → Result (ℕ × List ℕ)
read_ones [] = err io_unexpected_eof
read_ones (zero ∷ rest) = ok (0, rest)
read_ones (suc b ∷ rest) = do (n, more) ← read_ones rest; ok (suc n, more)

read_ones-write_ones : (n : ℕ) (rest : List ℕ) → read_ones (write_ones n ++ rest) ≡ ok (n, rest)
read_ones-write_ones zero rest = refl
read_ones-write_ones (suc n) rest =
    ap (λ r. r >>= (λ x. ok (suc x.0, x.1))) (read_ones-write_ones n rest)

instance abbrev ones : SpillAccumulator ℕ
ones = record {
  write_state = write_ones;
  read_state = λ limit. read_ones;
  memory_bytes = λ n. n + 8;
  merge = λ a b. a + b;
  IsState = λ n. Unit;
  merge-IsState = λ a b p q. tt;
  read_state-write_state = λ limit a rest p q. read_ones-write_ones a rest;
}

abbrev sum : Weight ℕ
sum = record {
  M = ℕ;
  unit = 0;
  op = λ a b. a + b;
  op_assoc = λ x y z. omega arith;
  unit_left = λ x. omega arith;
  unit_right = λ x. omega arith;
  weigh = λ n. n;
  weigh-merge = λ a b. refl;
}

abbrev first_batch : List (ℕ × ℕ)
first_batch = (1, 2) ∷ (5, 1) ∷ []

abbrev second_batch : List (ℕ × ℕ)
second_batch = (0, 1) ∷ (5, 3) ∷ []

abbrev once : SpillRuns
once = (push_sorted ℕ 64 first_batch new).1

abbrev twice : SpillRuns
twice = (push_sorted ℕ 64 second_batch once).1

test_first : (push_sorted ℕ 64 first_batch new).0 ≡ ok tt
unfolding push_sorted
test_first = refl

pushed_twice : Pushed ℕ sum 64 twice (([] ++ first_batch) ++ second_batch)
unfolding push_sorted
pushed_twice =
    push once twice ([] ++ first_batch) second_batch
      (push new once [] first_batch unspilled ((omega arith, tt), ((omega arith, tt), tt)) refl)
      ((omega arith, tt), ((omega arith, tt), tt)) refl

finish-Finishes_example : Finishes ℕ sum 64 (first_batch ++ second_batch) (finish ℕ 64 twice).0
finish-Finishes_example = finish-Finishes ℕ sum 64 twice (first_batch ++ second_batch) pushed_twice

test_twice : twice.bytes_written ≡ 77
unfolding push_sorted
test_twice = refl

test_unsorted : (push_sorted ℕ 64 ((5, 1) ∷ (5, 2) ∷ []) new).0 ≡ err io_invalid_data
unfolding push_sorted
test_unsorted = refl
