-- ===== src/Raster/Prefetch.antt =====
-- `OrderedPrefetchQueue` of crates/raster-h3-core/src/raster/prefetch.rs. A call is a sequence of
-- steps, each what it does while it holds the lock: to the end of the call, or until it waits on a
-- condition and gives the lock up. The notifications only end waits, which may end at any time.
pub mod Window
pub mod Ordered
pub mod Runs
pub mod Drains
pub mod Delivery
pub mod Progress
use raster_h.Common.{
  ℕ, zero, suc, ◌+◌, ◌-◌, ◌%◌, max, Bool, true, false, ◌&&◌, ◌||◌, not, Option, none, some, List,
  [], ◌∷◌, ◌++◌, length, get_or, set, replicate, leb, ltb, if◌then◌else◌,
}

-- The fields of the queue and of the state under its lock.
pub record OrderedPrefetchQueue (T : Type 0) : Type 0 where
  pub capacity : ℕ
  pub total_jobs : ℕ
  pub slots : List (Option T)
  pub next_read : ℕ
  pub closed : Bool
  pub terminal_item : Option T

-- Where a step left its call: returned, or waiting at the start, or in the third part of
-- `drain_into` with as many items still wanted.
pub data Held : Type 0 where
  returned : Held
  waits_to_start : Held
  waits_to_fill : ℕ → Held

pub data Pushed (T : Type 0) : Type 0 where
  waits : Pushed T
  refused : Pushed T
  stored : OrderedPrefetchQueue T → Pushed T

-- The items that a step of `drain_into` took, the queue, and the call.
abbrev pub Drained : Type 0 → Type 0
Drained T = List T × OrderedPrefetchQueue T × Held

module _ {T : Type 0} where
  unfoldable pub new : ℕ → ℕ → OrderedPrefetchQueue T
  new capacity total_jobs =
      let cap = max capacity 16 in
      record {
        capacity = cap;
        total_jobs = total_jobs;
        slots = replicate cap none;
        next_read = 0;
        closed = false;
        terminal_item = none;
      }

  unfoldable pub push : ℕ → T → OrderedPrefetchQueue T → Pushed T
  push job_id item q =
      if leb (q.next_read + q.capacity) job_id && not q.closed
      then waits
      else if q.closed
      then refused
      else stored (record q { slots = set q.slots (job_id % q.capacity) (some item) })

  unfoldable pub close : OrderedPrefetchQueue T → OrderedPrefetchQueue T
  close q = record q { closed = true }

  unfoldable pub fail : T → OrderedPrefetchQueue T → OrderedPrefetchQueue T
  fail item q = if not q.closed then record q { terminal_item = some item; closed = true } else q

  -- The slot that is read next, and the queue once it is taken.
  unfoldable pub next_slot : OrderedPrefetchQueue T → Option T
  next_slot q = get_or q.slots (q.next_read % q.capacity) none

  unfoldable pub advance : OrderedPrefetchQueue T → OrderedPrefetchQueue T
  advance q = record q {
    slots = set q.slots (q.next_read % q.capacity) none;
    next_read = suc q.next_read;
  }

  -- `terminal_item.take()`, with what both uses of it do.
  unfoldable pub finished_with : OrderedPrefetchQueue T → Option T → Drained T
  finished_with q none = ([], q, returned)
  finished_with q (some item) =
      (item ∷ [], record q { terminal_item = none; next_read = q.total_jobs }, returned)

  unfoldable pub finished : OrderedPrefetchQueue T → Drained T
  unfolding finished_with
  finished q = finished_with q q.terminal_item

  unfoldable pub before : List T → Drained T → Drained T
  before xs (ys, q, held) = (xs ++ ys, q, held)

  unfoldable pub ready_slot :
      OrderedPrefetchQueue T
      → Option T
      → List T × OrderedPrefetchQueue T
      → List T × OrderedPrefetchQueue T
  ready_slot q none rest = ([], q)
  ready_slot q (some item) (items, q') = (item ∷ items, q')

  -- The second part: the ready items, while there is room in the batch.
  unfoldable pub drain_ready : ℕ → OrderedPrefetchQueue T → List T × OrderedPrefetchQueue T
  unfolding ready_slot next_slot advance
  drain_ready zero q = ([], q)
  drain_ready (suc room) q =
      let rest = drain_ready room (advance q) in
      if ltb q.next_read q.total_jobs then ready_slot q (next_slot q) rest else ([], q)

  -- The third part, from the head of its loop: an empty slot makes it wait.
  unfoldable pub fill_slot : OrderedPrefetchQueue T → ℕ → Option T → Drained T → Drained T
  unfolding before
  fill_slot q wanted none rest = ([], q, waits_to_fill wanted)
  fill_slot q wanted (some item) rest = before (item ∷ []) rest

  unfoldable pub fill : ℕ → OrderedPrefetchQueue T → Drained T
  unfolding fill_slot next_slot advance finished
  fill zero q = finished q
  fill (suc wanted) q =
      let rest = fill wanted (advance q) in
      if ltb q.next_read q.total_jobs && not q.closed
      then fill_slot q (suc wanted) (next_slot q) rest
      else finished q

  -- The third part, from the wait in it.
  unfoldable pub woken_slot : OrderedPrefetchQueue T → ℕ → Option T → Drained T → Drained T
  unfolding finished before
  woken_slot q wanted none rest = if q.closed then finished q else ([], q, waits_to_fill wanted)
  woken_slot q wanted (some item) rest = before (item ∷ []) rest

  unfoldable pub resume_fill : ℕ → OrderedPrefetchQueue T → Drained T
  unfolding woken_slot fill next_slot advance finished
  resume_fill zero q = finished q
  resume_fill (suc wanted) q =
      let rest = fill wanted (advance q) in
      if ltb q.next_read q.total_jobs
      then woken_slot q (suc wanted) (next_slot q) rest
      else finished q

  unfoldable pub is_empty_slot : Option T → Bool
  is_empty_slot none = true
  is_empty_slot (some item) = false

  unfoldable pub filled_up : ℕ → List T × OrderedPrefetchQueue T → Drained T
  unfolding before fill
  filled_up target_min (items, q) = before items (fill (target_min - length items) q)

  -- After the first wait, with the terminal item that is there.
  unfoldable pub drain_started : ℕ → ℕ → OrderedPrefetchQueue T → Option T → Drained T
  unfolding finished_with drain_ready filled_up is_empty_slot next_slot
  drain_started min_batch max_batch q (some item) = finished_with q (some item)
  drain_started min_batch max_batch q none =
      if leb q.total_jobs q.next_read || (q.closed && is_empty_slot (next_slot q))
      then ([], q, returned)
      else filled_up (max min_batch 1) (drain_ready (max max_batch min_batch) q)

  -- `drain_into` from its start, or from the wait at its start; the counts are from the batch's
  -- length at the call on.
  unfoldable pub drain_into : ℕ → ℕ → OrderedPrefetchQueue T → Drained T
  unfolding drain_started is_empty_slot next_slot
  drain_into min_batch max_batch q =
      if ltb q.next_read q.total_jobs && is_empty_slot (next_slot q) && not q.closed
      then ([], q, waits_to_start)
      else drain_started min_batch max_batch q q.terminal_item
