-- ===== src/Duckdb/Queue/Refill.antt =====
-- What a refill of the queue of record_queue.rs does with the records of a drain.
use raster_h.Duckdb.Queue.Filling.{
  concat, batch_list, concat-append, IsFilling, filling, emit_all-IsFilling, IsRefilled,
  flush-IsRefilled,
}
use raster_h.Duckdb.Queue.{
  ConcurrentRecordQueue, Refilling, emit_all, is_none, after_drain, Drain, refill,
  refill_unless_finished, pop_or, pop_or_refill,
}
use raster_h.Common.{
  ℕ, ◌*◌, ◌<◌, ◌≡◌, refl, sym, ap, ◌∙◌, subst, Bool, true, false, Option, none, List, [], ◌∷◌, ◌++◌,
  append-nil, if◌then◌else◌, Result, ok, err,
}

module _ {R : Type 0} where
  -- The answer of a refill that did not fail.
  abbrev pub IsAnswer :
      ℕ → List R → Bool → Result (Option (List R)) × ConcurrentRecordQueue R → Type 0
  IsAnswer size emitted before (err e, q) = ⊥
  IsAnswer size emitted before (ok mine, q) =
      IsRefilled size emitted mine q.ready_batches
      × (q.is_finished ≡ (if is_none mine then true else before))
      × (q.batch_size ≡ size)

  -- A refill of an empty queue whose drain answers: the batch for the caller and those that are
  -- queued hold the emitted records, each once and in their order, none is empty or longer than
  -- the batch size; there is no batch for the caller only if nothing was emitted, and then the
  -- queue is finished.
  pub after_drain-IsAnswer :
      (q : ConcurrentRecordQueue R) (emitted : List R) (count : ℕ)
      → 0 < q.batch_size
      → IsAnswer q.batch_size emitted q.is_finished (
          after_drain q (ok count) (
            emit_all q.batch_size emitted
              (record { my_batch = none; ready_q = []; current_chunk = [] })))
  unfolding after_drain
  after_drain-IsAnswer q emitted count pos =
      let begun : Refilling R = record { my_batch = none; ready_q = []; current_chunk = [] } in
      let s = emit_all q.batch_size emitted begun in
      let start : IsFilling q.batch_size [] begun = record {
        all_there = refl;
        full = tt;
        begun = pos;
        mine_first = λ e. refl;
      } in
      (
        flush-IsRefilled q.batch_size emitted s.current_chunk s pos
            (emit_all-IsFilling q.batch_size emitted [] begun pos start) refl,
        refl,
        refl,
      )

  -- The records that are still to be handed out.
  abbrev pub queued : ConcurrentRecordQueue R → List R
  queued q = concat q.ready_batches

  -- What the streamer emits in a call: nothing unless the queue is empty and not finished.
  abbrev pub emitted_by :
      {S : Type 0} → Drain R S → ConcurrentRecordQueue R → S → List (List R) → List R
  emitted_by drain q s [] = if q.is_finished then [] else (drain s (q.batch_size * 4)).0
  emitted_by drain q s (b ∷ ready) = []

  -- With the records of a call accounted for: those it answers and those it leaves queued are those
  -- that were queued and those that were emitted. A failed drain leaves nothing queued.
  abbrev pub Conserves :
      {S : Type 0}
      → List R
      → List R
      → Result (Option (List R)) × ConcurrentRecordQueue R × S
      → Type 0
  Conserves old emitted (err e, q, s) = queued q ≡ []
  Conserves old emitted (ok mine, q, s) = concat (batch_list mine) ++ queued q ≡ old ++ emitted

  after_drain-Conserves :
      {S : Type 0} (q : ConcurrentRecordQueue R) (emitted : List R) (answer : Result ℕ) (s : S)
      → 0 < q.batch_size
      → Conserves [] emitted (
        (after_drain q answer (emit_all q.batch_size emitted (filling none [] []))).0,
        (after_drain q answer (emit_all q.batch_size emitted (filling none [] []))).1,
        s,
      )
  after_drain-Conserves q emitted (err e) s pos = unfold after_drain in refl
  after_drain-Conserves q emitted (ok count) s pos =
      answered (after_drain q (ok count) (emit_all q.batch_size emitted (filling none [] [])))
        (after_drain-IsAnswer q emitted count pos)
    where
      answered :
          (r : Result (Option (List R)) × ConcurrentRecordQueue R)
          → IsAnswer q.batch_size emitted q.is_finished r
          → Conserves [] emitted (r.0, r.1, s)
      answered (err e, q') h = absurd h
      answered (ok mine, q') h =
          sym (concat-append (batch_list mine) q'.ready_batches) ∙ h.0.all_there

  -- A call of `pop_or_refill` loses no record, doubles none and changes no order, whether it takes
  -- a queued batch, finds the queue finished, or refills it; where the drain fails, the records
  -- that it emitted are dropped.
  pub pop_or_refill-Conserves :
      {S : Type 0} (drain : Drain R S) (q : ConcurrentRecordQueue R) (s : S)
      → 0 < q.batch_size
      → Conserves (queued q) (emitted_by drain q s q.ready_batches) (pop_or_refill drain q s)
  unfolding pop_or_refill pop_or refill_unless_finished refill
  pop_or_refill-Conserves {S = S} drain q s pos = go q.ready_batches refl
    where
      go :
          (ready : List (List R))
          → q.ready_batches ≡ ready
          → Conserves (concat ready) (emitted_by drain q s ready) (pop_or drain ready q s)
      go (b ∷ ready) e =
          ap (λ t. t ++ concat ready) (append-nil b) ∙ sym (append-nil (b ++ concat ready))
      go [] e = finished_or q.is_finished
        where
          finished_or :
              (c : Bool)
              → Conserves []
                  (if c then [] else (drain s (q.batch_size * 4)).0)
                  (if c then (ok none, q, s) else refill drain q s)
          finished_or true = ap concat e
          finished_or false =
              subst
                (λ ready. Conserves [] (drain s (q.batch_size * 4)).0 (
                  (after_drain q (drain s (q.batch_size * 4)).1 (
                      emit_all q.batch_size (drain s (q.batch_size * 4)).0
                        (filling none ready []))).0,
                  (after_drain q (drain s (q.batch_size * 4)).1 (
                      emit_all q.batch_size (drain s (q.batch_size * 4)).0
                        (filling none ready []))).1,
                  (drain s (q.batch_size * 4)).2,
                ))
                (sym e)
                (after_drain-Conserves q (drain s (q.batch_size * 4)).0
                  (drain s (q.batch_size * 4)).1 (drain s (q.batch_size * 4)).2 pos)
