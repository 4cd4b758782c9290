-- ===== src/Raster/Tests.antt =====
-- The theorems on crates/raster-h3-core/src/raster, applied: http_range.rs to a transport that
-- serves a file of five bytes, prefetch.rs to a queue of three jobs.
use raster_h.Raster.Remote.{
  Bytes, complete, partial, RemoteTransport, RemoteHttpSource, default_block_size, source_of_probe,
  from_transport, read_range_into, read_exact_range,
}
use raster_h.Raster.Remote.Slices.{slice}
use raster_h.Raster.Remote.Coherent.{IsServing, IsCoherent, from_transport-IsCoherent}
use raster_h.Raster.Remote.Reads.{Delivers}
use raster_h.Raster.Remote.Exact.{Exactly, read_range_into-Delivers, read_exact_range-Exactly}
use raster_h.Raster.Reader.{HttpRangeReader, read, ReadsOn, read-ReadsOn}
use raster_h.Raster.Prefetch.{OrderedPrefetchQueue, stored, new, push, drain_into}
use raster_h.Raster.Prefetch.Runs.{pushes, drains, Run, starts, steps, IsDelivering}
use raster_h.Raster.Prefetch.Delivery.{Run-IsDelivering}
use raster_h.Common.{
  ℕ, ◌+◌, ◌-◌, ◌*◌, ◌≤◌, ◌≡◌, refl, sym, false, none, some, [], ◌∷◌, ◌++◌, min, ok, arith,
  replicate,
}

abbrev five_bytes : Bytes
five_bytes = 10 ∷ 20 ∷ 30 ∷ 40 ∷ 50 ∷ []

abbrev server : RemoteTransport
server = record {
  fetch_range = λ a b total. ok (slice five_bytes a (b - a + 1));
  probe = λ n. ok (partial (slice five_bytes 0 (min n 5)) 5);
}

ok-eq {ℓ} : {A : Type ℓ} {x y : A} → ok x ≡ ok y → x ≡ y
ok-eq e = cc

partial-eq : {a b : Bytes} {m n : ℕ} → ok (partial a m) ≡ ok (partial b n) → (b ≡ a) × (n ≡ m)
partial-eq e = (cc, cc)

server-IsServing : IsServing five_bytes server
server-IsServing = record {
  exact = λ a b bytes le lt e. sym (ok-eq e);
  whole = λ n bytes total e. absurd (apart e);
  front = λ n bytes total e. (omega arith, (partial-eq e).0, (partial-eq e).1);
}
  where
    apart : {a b : Bytes} {m n : ℕ} → ok (partial a m) ≡ ok (complete b n) → ⊥
    apart e = ground arith

abbrev opened : RemoteHttpSource
opened = source_of_probe server (partial (slice five_bytes 0 (min default_block_size 5)) 5)

opened-eq : from_transport server ≡ ok opened
unfolding from_transport
opened-eq = refl

opened-IsCoherent : IsCoherent five_bytes opened
opened-IsCoherent = from_transport-IsCoherent five_bytes server opened server-IsServing opened-eq

read_range_into-Delivers_example :
    Delivers five_bytes opened 3
      (min 4 (5 - 3))
      (0 ∷ 0 ∷ 0 ∷ 0 ∷ [])
      (read_range_into opened 3 (0 ∷ 0 ∷ 0 ∷ 0 ∷ []))
read_range_into-Delivers_example =
    read_range_into-Delivers five_bytes opened opened-IsCoherent 3 (0 ∷ 0 ∷ 0 ∷ 0 ∷ [])

read_exact_range-Exactly_example : Exactly five_bytes opened 1 3 (read_exact_range opened 1 3)
read_exact_range-Exactly_example = read_exact_range-Exactly five_bytes opened 1 3 opened-IsCoherent

abbrev at_three : HttpRangeReader
at_three = record { source = opened; cursor = 3 }

read-ReadsOn_example : ReadsOn five_bytes at_three (9 ∷ 9 ∷ 9 ∷ []) (read at_three (9 ∷ 9 ∷ 9 ∷ []))
read-ReadsOn_example = read-ReadsOn five_bytes at_three (9 ∷ 9 ∷ 9 ∷ []) opened-IsCoherent

-- The job's number, tenfold; any item may be a failure.
abbrev tenfold : ℕ → ℕ
tenfold job = 10 * job

abbrev Any : ℕ → Type 0
Any e = Unit {0}

abbrev one_stored : OrderedPrefetchQueue ℕ
one_stored = record {
  capacity = 16;
  total_jobs = 3;
  slots = none ∷ some 10 ∷ replicate 14 none;
  next_read = 0;
  closed = false;
  terminal_item = none;
}

abbrev two_stored : OrderedPrefetchQueue ℕ
two_stored = record one_stored { slots = some 0 ∷ some 10 ∷ replicate 14 none }

first_push : push 1 (tenfold 1) (new 1 3) ≡ stored one_stored
unfolding push new
first_push = refl

second_push : push 0 (tenfold 0) one_stored ≡ stored two_stored
unfolding push
second_push = refl

next_zero : (let q : OrderedPrefetchQueue ℕ = new 1 3 in q).next_read ≤ 1
unfolding new
next_zero = omega arith

abbrev two_pushes : Run tenfold Any 1 3 two_stored (([] ++ []) ++ [])
two_pushes =
    steps (steps starts (pushes 1 next_zero first_push)) (pushes 0 (omega arith) second_push)

Run-IsDelivering_example :
    IsDelivering tenfold Any
      (drain_into 1 8 two_stored).1
      ((([] ++ []) ++ []) ++ (drain_into 1 8 two_stored).0)
Run-IsDelivering_example =
    Run-IsDelivering tenfold Any 1 3 (drain_into 1 8 two_stored).1
      ((([] ++ []) ++ []) ++ (drain_into 1 8 two_stored).0) (steps two_pushes (drains 1 8))
