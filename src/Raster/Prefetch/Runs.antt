-- ===== src/Raster/Prefetch/Runs.antt =====
-- The steps of the threads on the queue of prefetch.rs, their runs, and what holds of the items taken.
use raster_h.Raster.Prefetch.{
  OrderedPrefetchQueue, Held, returned, stored, Drained, new, push, close, fail, next_slot, advance,
  finished_with, finished, before, resume_fill, drain_into,
}
use raster_h.Raster.Prefetch.Ordered.{first_items, IsSlot, IsWindow, advance-IsWindow}
use raster_h.Common.{
  ℕ, ◌+◌, ◌%◌, ◌≤◌, ◌<◌, ◌≡◌, ◌⊎◌, inl, inr, refl, sym, ap, ap₂, subst, true, Option, none, some,
  List, [], ◌∷◌, ◌++◌, append-nil, append_assoc, get_or, Option-cases, arith,
}

module _ {T : Type 0} (item_of : ℕ → T) (Terminal : T → Type 0) where
  -- A step of a thread, with the items that it takes. A job is stored before its turn to be read
  -- has passed.
  pub data Step : OrderedPrefetchQueue T → List T → OrderedPrefetchQueue T → Type 0 where
    pushes :
        {q q' : OrderedPrefetchQueue T} (job : ℕ)
        → q.next_read ≤ job
        → push job (item_of job) q ≡ stored q'
        → Step q [] q'
    closes : {q : OrderedPrefetchQueue T} → Step q [] (close q)
    fails : {q : OrderedPrefetchQueue T} (e : T) → Terminal e → Step q [] (fail e q)
    drains :
        {q : OrderedPrefetchQueue T} (min_batch max_batch : ℕ)
        → Step q (drain_into min_batch max_batch q).0 (drain_into min_batch max_batch q).1
    fills :
        {q : OrderedPrefetchQueue T} (wanted : ℕ)
        → Step q (resume_fill wanted q).0 (resume_fill wanted q).1

  -- From a new queue, the steps of all threads, one after the other, and all items taken.
  pub data Run (capacity total_jobs : ℕ) : OrderedPrefetchQueue T → List T → Type 0 where
    starts : Run capacity total_jobs (new capacity total_jobs) []
    steps :
        {q q' : OrderedPrefetchQueue T} {taken items : List T}
        → Run capacity total_jobs q taken
        → Step q items q'
        → Run capacity total_jobs q' (taken ++ items)

  -- Before a terminal item was taken.
  pub record IsRunning (q : OrderedPrefetchQueue T) (taken : List T) : Type 0 where
    pub window : IsWindow item_of Terminal q
    pub in_order : taken ≡ first_items item_of Terminal q.next_read
    pub within : q.next_read ≤ q.total_jobs
    pub latched : (e : T) → q.terminal_item ≡ some e → (q.closed ≡ true) × Terminal e

  -- After one was taken, behind the first `count` items.
  pub record IsEnded (q : OrderedPrefetchQueue T) (taken : List T) : Type 0 where
    pub count : ℕ
    pub last : T
    pub ends : taken ≡ first_items item_of Terminal count ++ (last ∷ [])
    pub within : count ≤ q.total_jobs
    pub failed : Terminal last
    pub past : q.total_jobs ≤ q.next_read
    pub latched : q.closed ≡ true
    pub spent : q.terminal_item ≡ none

  abbrev pub IsDelivering : OrderedPrefetchQueue T → List T → Type 0
  IsDelivering q taken = IsRunning q taken ⊎ IsEnded q taken

  abbrev pub Delivers : List T → Drained T → Type 0
  Delivers taken d = IsDelivering d.1 (taken ++ d.0)

  pub Delivers-before :
      (taken xs : List T) (d : Drained T) → Delivers (taken ++ xs) d → Delivers taken (before xs d)
  unfolding before
  Delivers-before taken xs d h = subst (λ t. IsDelivering d.1 t) (append_assoc taken xs d.0) h

  pub idle :
      (q : OrderedPrefetchQueue T) (taken : List T) (held : Held)
      → IsDelivering q taken
      → Delivers taken ([], q, held)
  idle q taken held h = subst (λ t. IsDelivering q t) (sym (append-nil taken)) h

  pub finished-Delivers :
      (q : OrderedPrefetchQueue T) (taken : List T)
      → IsDelivering q taken
      → Delivers taken (finished q)
  unfolding finished finished_with
  finished-Delivers q taken (inr h) = rw (h.spent, finished_with) (idle q taken returned (inr h))
  finished-Delivers q taken (inl h) = elim (Option-cases q.terminal_item) [
    | inl quiet ↦ rw (quiet, finished_with) (idle q taken returned (inl h))
    | inr (e, there) ↦
        rw (there, finished_with)
          (inr (record {
            count = q.next_read;
            last = e;
            ends = ap (λ t. t ++ (e ∷ [])) h.in_order;
            within = h.within;
            failed = (h.latched e there).1;
            past = omega arith;
            latched = (h.latched e there).0;
            spent = refl;
          }))
  ]

  -- Taking the next item.
  pub advance-IsRunning :
      (q : OrderedPrefetchQueue T) (taken : List T) (x : T)
      → IsRunning q taken
      → q.next_read < q.total_jobs
      → next_slot q ≡ some x
      → IsRunning (advance q) (taken ++ (x ∷ []))
  unfolding next_slot advance
  advance-IsRunning q taken x h more there = record {
    window = advance-IsWindow item_of Terminal q h.window;
    in_order = ap₂ (λ t y. t ++ (y ∷ [])) h.in_order is_next;
    within = more;
    latched = λ e p. h.latched e p;
  }
    where
      none_or :
          (slot : Option T)
          → slot ≡ some x
          → IsSlot item_of Terminal q.next_read slot
          → x ≡ item_of q.next_read
      none_or slot p (inl empty) = cc
      none_or slot p (inr full) = cc

      is_next : x ≡ item_of q.next_read
      is_next =
          let z : q.next_read + 0 ≡ q.next_read = omega arith in
          none_or (get_or q.slots (q.next_read % q.capacity) none) there (
            subst (λ job. IsSlot item_of Terminal job (get_or q.slots (job % q.capacity) none)) z
              (h.window.holds 0 h.window.roomy))
