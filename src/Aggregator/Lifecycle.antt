-- ===== src/Aggregator/Lifecycle.antt =====
-- `StreamLifecycle` and `OutputBuffer` of
-- crates/raster-h3-core/src/aggregator/multi_horizon/lifecycle.rs. A reason is its bytes; a
-- record's size is an argument, and the sum of the sizes fits usize.
pub mod Latched
pub mod Buffer
use raster_h.Common.{
  ℕ, zero, suc, ◌+◌, ◌-◌, min, Bool, true, false, Option, none, some, List, [], ◌∷◌, ◌++◌, length,
  Result, ok, err, RasterH3Error, stream_failed,
}

pub data StreamState : Type 0 where
  running finished : StreamState
  failed : List ℕ → StreamState

pub record StreamLifecycle : Type 0 where
  pub state : StreamState

abbrev pub in_state : StreamState → StreamLifecycle
in_state s = record { state = s }

unfoldable pub new : StreamLifecycle
new = in_state running

unfoldable pub runnable_in : StreamState → Result Bool
runnable_in running = ok true
runnable_in finished = ok false
runnable_in (failed reason) = err (stream_failed reason)

unfoldable pub ensure_runnable : StreamLifecycle → Result Bool
unfolding runnable_in
ensure_runnable s = runnable_in s.state

-- The error that is answered, and the state afterwards.
unfoldable pub latch_in : StreamState → List ℕ → RasterH3Error × StreamState
latch_in running reason = (stream_failed reason, failed reason)
latch_in finished reason = (stream_failed reason, failed reason)
latch_in (failed existing) reason = (stream_failed existing, failed existing)

unfoldable pub latch_failure : StreamLifecycle → List ℕ → RasterH3Error × StreamLifecycle
unfolding latch_in
latch_failure s reason = let (e, state) = latch_in s.state reason in (e, in_state state)

unfoldable pub finish_in : StreamState → StreamState
finish_in running = finished
finish_in finished = finished
finish_in (failed reason) = failed reason

unfoldable pub mark_finished : StreamLifecycle → StreamLifecycle
unfolding finish_in
mark_finished s = in_state (finish_in s.state)

unfoldable pub is_finished : StreamLifecycle → Bool
is_finished s = elim s.state [ running ↦ false | finished ↦ true | failed _ ↦ false ]

unfoldable pub is_failed : StreamLifecycle → Bool
is_failed s = elim s.state [ running ↦ false | finished ↦ false | failed _ ↦ true ]

unfoldable pub failure_reason : StreamLifecycle → Option (List ℕ)
failure_reason s = elim s.state [ running ↦ none | finished ↦ none | failed r ↦ some r ]

pub record OutputBuffer (R : Type 0) : Type 0 where
  pub records : List (R × ℕ)
  pub estimated_bytes : ℕ

module _ {R : Type 0} where
  unfoldable pub with_capacity : OutputBuffer R
  with_capacity = record { records = []; estimated_bytes = 0 }

  unfoldable pub push_sized : OutputBuffer R → R → ℕ → OutputBuffer R
  push_sized b item bytes = record {
    records = b.records ++ ((item, bytes) ∷ []);
    estimated_bytes = b.estimated_bytes + bytes;
  }

  unfoldable pub popped : List (R × ℕ) → ℕ → Option R × OutputBuffer R
  popped [] total = (none, record { records = []; estimated_bytes = total })
  popped ((item, bytes) ∷ records) total =
      (some item, record { records = records; estimated_bytes = total - bytes })

  unfoldable pub pop_front : OutputBuffer R → Option R × OutputBuffer R
  unfolding popped
  pop_front b = popped b.records b.estimated_bytes

  unfoldable pub clear : OutputBuffer R → OutputBuffer R
  clear b = record { records = []; estimated_bytes = 0 }

  abbrev pub push_some : Option R → List R → List R
  push_some none batch = batch
  push_some (some item) batch = item ∷ batch

  -- `for _ in 0..n`
  unfoldable pub take_rounds : ℕ → OutputBuffer R → List R × OutputBuffer R
  unfolding pop_front
  take_rounds zero b = ([], b)
  take_rounds (suc n) b =
      let (r, b') = pop_front b in let (batch, b'') = take_rounds n b' in (push_some r batch, b'')

  unfoldable pub take_batch : ℕ → OutputBuffer R → List R × OutputBuffer R
  unfolding take_rounds
  take_batch max_rows b = take_rounds (min max_rows (length b.records)) b

  abbrev pub call_some : ℕ → Option R → List (ℕ × R) → List (ℕ × R)
  call_some i none calls = calls
  call_some i (some item) calls = (i, item) ∷ calls

  -- The calls of the consumer, from round `i` on.
  unfoldable pub drain_rounds : ℕ → ℕ → OutputBuffer R → List (ℕ × R) × OutputBuffer R
  unfolding pop_front
  drain_rounds i zero b = ([], b)
  drain_rounds i (suc n) b =
      let (r, b') = pop_front b in
      let (calls, b'') = drain_rounds (suc i) n b' in (call_some i r calls, b'')

  -- The count, the calls of the consumer, the buffer.
  unfoldable pub drain_into : ℕ → OutputBuffer R → ℕ × List (ℕ × R) × OutputBuffer R
  unfolding drain_rounds
  drain_into max_rows b =
      let n = min max_rows (length b.records) in
      let (calls, b') = drain_rounds 0 n b in (n, calls, b')
