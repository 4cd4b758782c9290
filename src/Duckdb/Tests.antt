-- ===== src/Duckdb/Tests.antt =====
-- The theorems on record_queue.rs, applied to a streamer that counts up to three.
use raster_h.Duckdb.Queue.{ConcurrentRecordQueue, Drain, pop_or_refill}
use raster_h.Duckdb.Queue.Refill.{queued, emitted_by, Conserves, pop_or_refill-Conserves}
use raster_h.Common.{ℕ, false, [], ◌∷◌, ok, arith}

abbrev two_by_two : ConcurrentRecordQueue ℕ
two_by_two = record { ready_batches = []; is_finished = false; batch_size = 2 }

abbrev three_records : Drain ℕ ℕ
three_records s limit = (s ∷ 20 ∷ 30 ∷ [], ok 3, 40)

pop_or_refill-Conserves_example :
    Conserves
      (queued two_by_two)
      (emitted_by three_records two_by_two 10 [])
      (pop_or_refill three_records two_by_two 10)
pop_or_refill-Conserves_example = pop_or_refill-Conserves three_records two_by_two 10 (omega arith)
