-- ===== src/Raster/Prefetch/Drains.antt =====
-- `drain_into` of the queue of prefetch.rs, from its start and from the wait in it.
use raster_h.Raster.Prefetch.Runs.{
  IsRunning, IsDelivering, Delivers, Delivers-before, idle, finished-Delivers, advance-IsRunning,
}
use raster_h.Raster.Prefetch.{
  OrderedPrefetchQueue, returned, waits_to_start, waits_to_fill, next_slot, advance, finished_with,
  finished, ready_slot, drain_ready, fill_slot, fill, woken_slot, resume_fill, is_empty_slot,
  filled_up, drain_started, drain_into,
}
use raster_h.Common.{
  ℕ, zero, suc, ◌-◌, max, ◌≡◌, inl, inr, sym, subst, true, ◌&&◌, ◌||◌, not, List, [], ◌∷◌, ◌++◌,
  append-nil, append_assoc, length, leb, ltb, ltb→lt, le→ltb, if-elim, Bool-cases, Option-cases,
  arith,
}

module _ {T : Type 0} (item_of : ℕ → T) (Terminal : T → Type 0) where
  fill-Delivers :
      (wanted : ℕ) (q : OrderedPrefetchQueue T) (taken : List T)
      → IsDelivering item_of Terminal q taken
      → Delivers item_of Terminal taken (fill wanted q)
  unfolding fill fill_slot
  fill-Delivers zero q taken h = finished-Delivers item_of Terminal q taken h
  fill-Delivers (suc wanted) q taken (inr h) =
      rw (le→ltb q.next_read q.total_jobs h.past)
        (finished-Delivers item_of Terminal q taken (inr h))
  fill-Delivers (suc wanted) q taken (inl h) =
      elim (Bool-cases (ltb q.next_read q.total_jobs && not q.closed)) [
        | inr over ↦ rw over (finished-Delivers item_of Terminal q taken (inl h))
        | inl more ↦ elim (Option-cases (next_slot q)) [
          | inl empty ↦
              rw (more, empty, fill_slot)
                (idle item_of Terminal q taken (waits_to_fill (suc wanted)) (inl h))
          | inr (x, there) ↦
              rw (more, there, fill_slot)
                (Delivers-before item_of Terminal taken (x ∷ []) (fill wanted (advance q)) (
                  fill-Delivers wanted (advance q) (taken ++ (x ∷ [])) (
                    inl (
                      advance-IsRunning item_of Terminal q taken x h (ground (arith, more))
                        there))))
        ]
      ]

  pub resume_fill-Delivers :
      (wanted : ℕ) (q : OrderedPrefetchQueue T) (taken : List T)
      → IsDelivering item_of Terminal q taken
      → Delivers item_of Terminal taken (resume_fill wanted q)
  unfolding resume_fill woken_slot
  resume_fill-Delivers zero q taken h = finished-Delivers item_of Terminal q taken h
  resume_fill-Delivers (suc wanted) q taken (inr h) =
      rw (le→ltb q.next_read q.total_jobs h.past)
        (finished-Delivers item_of Terminal q taken (inr h))
  resume_fill-Delivers (suc wanted) q taken (inl h) =
      elim (Bool-cases (ltb q.next_read q.total_jobs)) [
        | inr over ↦ rw over (finished-Delivers item_of Terminal q taken (inl h))
        | inl more ↦ elim (Option-cases (next_slot q)) [
          | inl empty ↦
              rw (more, empty, woken_slot)
                (if-elim (Delivers item_of Terminal taken) q.closed (finished q)
                  ([], q, waits_to_fill (suc wanted))
                  (λ shut. finished-Delivers item_of Terminal q taken (inl h))
                  (λ unshut. idle item_of Terminal q taken (waits_to_fill (suc wanted)) (inl h)))
          | inr (x, there) ↦
              rw (more, there, woken_slot)
                (Delivers-before item_of Terminal taken (x ∷ []) (fill wanted (advance q)) (
                  fill-Delivers wanted (advance q) (taken ++ (x ∷ [])) (
                    inl (
                      advance-IsRunning item_of Terminal q taken x h
                        (ltb→lt q.next_read q.total_jobs more) there))))
        ]
      ]

  drain_ready-IsRunning :
      (room : ℕ) (q : OrderedPrefetchQueue T) (taken : List T)
      → IsRunning item_of Terminal q taken
      → IsRunning item_of Terminal (drain_ready room q).1 (taken ++ (drain_ready room q).0)
  unfolding drain_ready ready_slot
  drain_ready-IsRunning zero q taken h =
      subst (IsRunning item_of Terminal q) (sym (append-nil taken)) h
  drain_ready-IsRunning (suc room) q taken h = elim (Bool-cases (ltb q.next_read q.total_jobs)) [
    | inr over ↦ rw over (subst (IsRunning item_of Terminal q) (sym (append-nil taken)) h)
    | inl more ↦ elim (Option-cases (next_slot q)) [
      | inl empty ↦
          rw (more, empty, ready_slot)
            (subst (IsRunning item_of Terminal q) (sym (append-nil taken)) h)
      | inr (x, there) ↦
          rw (more, there, ready_slot)
            (subst (IsRunning item_of Terminal (drain_ready room (advance q)).1)
              (append_assoc taken (x ∷ []) (drain_ready room (advance q)).0)
              (drain_ready-IsRunning room (advance q) (taken ++ (x ∷ [])) (
                advance-IsRunning item_of Terminal q taken x h
                  (ltb→lt q.next_read q.total_jobs more) there)))
    ]
  ]

  drain_started-Delivers :
      (min_batch max_batch : ℕ) (q : OrderedPrefetchQueue T) (taken : List T)
      → IsDelivering item_of Terminal q taken
      → Delivers item_of Terminal taken (drain_started min_batch max_batch q q.terminal_item)
  unfolding drain_started filled_up
  drain_started-Delivers min_batch max_batch q taken (inr h) =
      let over : (leb q.total_jobs q.next_read || (q.closed && is_empty_slot (next_slot q)))
          ≡ true =
        ground (arith, h.past) in
      rw (h.spent, drain_started, over) (idle item_of Terminal q taken returned (inr h))
  drain_started-Delivers min_batch max_batch q taken (inl h) = elim (Option-cases q.terminal_item) [
    | inr (e, there) ↦
        rw (there, drain_started)
          (subst (λ o. Delivers item_of Terminal taken (finished_with q o)) there
            (unfold finished in finished-Delivers item_of Terminal q taken (inl h)))
    | inl quiet ↦
        elim (Bool-cases
          (leb q.total_jobs q.next_read || (q.closed && is_empty_slot (next_slot q)))) [
            | inl over ↦
                rw (quiet, drain_started, over) (idle item_of Terminal q taken returned (inl h))
            | inr more ↦
                let (items, q') = drain_ready (max max_batch min_batch) q in
                rw (quiet, drain_started, more)
                  (Delivers-before item_of Terminal taken items
                    (fill (max min_batch 1 - length items) q')
                    (fill-Delivers (max min_batch 1 - length items) q' (taken ++ items)
                      (inl (drain_ready-IsRunning (max max_batch min_batch) q taken h))))
          ]
  ]

  pub drain_into-Delivers :
      (min_batch max_batch : ℕ) (q : OrderedPrefetchQueue T) (taken : List T)
      → IsDelivering item_of Terminal q taken
      → Delivers item_of Terminal taken (drain_into min_batch max_batch q)
  unfolding drain_into
  drain_into-Delivers min_batch max_batch q taken h =
      elim (Bool-cases
        (ltb q.next_read q.total_jobs && is_empty_slot (next_slot q) && not q.closed)) [
          | inl waiting ↦ rw waiting (idle item_of Terminal q taken waits_to_start h)
          | inr ready ↦ rw ready (drain_started-Delivers min_batch max_batch q taken h)
        ]
