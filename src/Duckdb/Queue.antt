-- ===== src/Duckdb/Queue.antt =====
-- `ConcurrentRecordQueue` of
-- crates/raster-h3-duckdb/src/functions/bind_utils/record_queue.rs. The drain of the streamer is a
-- parameter: what it emits, in order, its answer, and the streamer afterwards. Both looks at the
-- queue are made under its lock, the second under the streamer's too, so no thread comes between.
pub mod Filling
pub mod Refill
use raster_h.Common.{
  ℕ, zero, suc, ◌+◌, ◌*◌, max, Bool, true, false, Option, none, some, List, [], ◌∷◌, ◌++◌, length,
  ◌==◌, if◌then◌else◌, Result, ok, err,
}

pub record ConcurrentRecordQueue (R : Type 0) : Type 0 where
  pub ready_batches : List (List R)
  pub is_finished : Bool
  pub batch_size : ℕ

-- The variables of the callback: the batch for the caller, the queue, the chunk begun.
pub record Refilling (R : Type 0) : Type 0 where
  pub my_batch : Option (List R)
  pub ready_q : List (List R)
  pub current_chunk : List R

-- A streamer's drain up to a limit.
abbrev pub Drain : Type 0 → Type 0 → Type 0
Drain R S = S → ℕ → List R × Result ℕ × S

module _ {R : Type 0} where
  unfoldable pub with_batch_size : ℕ → ConcurrentRecordQueue R
  with_batch_size batch_size = record {
    ready_batches = [];
    is_finished = false;
    batch_size = max batch_size 1;
  }

  -- A batch is the caller's if the caller has none.
  unfoldable pub hand_out : Option (List R) → List R → Refilling R → Refilling R
  hand_out none batch s = record s { my_batch = some batch; current_chunk = [] }
  hand_out (some mine) batch s = record s {
    ready_q = s.ready_q ++ (batch ∷ []);
    current_chunk = [];
  }

  -- The callback on one record.
  unfoldable pub emit : ℕ → R → Refilling R → Refilling R
  unfolding hand_out
  emit batch_size rec s =
      let chunk = s.current_chunk ++ (rec ∷ []) in
      if length chunk == batch_size
      then hand_out s.my_batch chunk s
      else record s { current_chunk = chunk }

  unfoldable pub emit_all : ℕ → List R → Refilling R → Refilling R
  unfolding emit
  emit_all batch_size [] s = s
  emit_all batch_size (rec ∷ recs) s = emit_all batch_size recs (emit batch_size rec s)

  -- The chunk that the drain left unfilled.
  unfoldable pub flush : List R → Refilling R → Refilling R
  unfolding hand_out
  flush [] s = s
  flush (rec ∷ recs) s = hand_out s.my_batch (rec ∷ recs) s

  unfoldable pub is_none : Option (List R) → Bool
  is_none none = true
  is_none (some batch) = false

  -- What the refill makes of the emitted records and the drain's answer.
  unfoldable pub after_drain :
      ConcurrentRecordQueue R
      → Result ℕ
      → Refilling R
      → Result (Option (List R)) × ConcurrentRecordQueue R
  unfolding flush is_none
  after_drain q (err e) s = (err e, record q { ready_batches = [] })
  after_drain q (ok count) s =
      let t = flush s.current_chunk s in
      (
        ok t.my_batch,
        record q {
          ready_batches = t.ready_q;
          is_finished = if is_none t.my_batch then true else q.is_finished;
        },
      )

  unfoldable pub refill :
      {S : Type 0}
      → Drain R S
      → ConcurrentRecordQueue R
      → S
      → Result (Option (List R)) × ConcurrentRecordQueue R × S
  unfolding after_drain emit_all
  refill drain q s =
      let (emitted, answer, s') = drain s (q.batch_size * 4) in
      let begun : Refilling R = record {
        my_batch = none;
        ready_q = q.ready_batches;
        current_chunk = [];
      } in
      let (r, q') = after_drain q answer (emit_all q.batch_size emitted begun) in (r, q', s')

  -- A queue that holds no batch.
  unfoldable pub refill_unless_finished :
      {S : Type 0}
      → Drain R S
      → ConcurrentRecordQueue R
      → S
      → Result (Option (List R)) × ConcurrentRecordQueue R × S
  unfolding refill
  refill_unless_finished drain q s = if q.is_finished then (ok none, q, s) else refill drain q s

  unfoldable pub pop_or :
      {S : Type 0}
      → Drain R S
      → List (List R)
      → ConcurrentRecordQueue R
      → S
      → Result (Option (List R)) × ConcurrentRecordQueue R × S
  unfolding refill_unless_finished
  pop_or drain [] q s = refill_unless_finished drain q s
  pop_or drain (b ∷ ready) q s = (ok (some b), record q { ready_batches = ready }, s)

  unfoldable pub pop_or_refill :
      {S : Type 0}
      → Drain R S
      → ConcurrentRecordQueue R
      → S
      → Result (Option (List R)) × ConcurrentRecordQueue R × S
  unfolding pop_or
  pop_or_refill drain q s = pop_or drain q.ready_batches q s
