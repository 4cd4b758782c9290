-- ===== src/Raster/Prefetch/Delivery.antt =====
-- Ordered delivery by the queue of prefetch.rs, over every interleaving of its steps.
use raster_h.Raster.Prefetch.Runs.{
  Step, pushes, closes, fails, drains, fills, Run, starts, steps, IsRunning, IsDelivering,
}
use raster_h.Raster.Prefetch.Drains.{drain_into-Delivers, resume_fill-Delivers}
use raster_h.Raster.Prefetch.{
  OrderedPrefetchQueue, waits, refused, stored, new, push, close, fail, before,
}
use raster_h.Raster.Prefetch.Ordered.{stored-IsWindow}
use raster_h.Common.{
  ℕ, zero, suc, ◌+◌, ◌%◌, max, ◌≤◌, ◌≡◌, inl, inr, refl, sym, subst, Bool, true, false, ◌&&◌, not,
  Option, none, some, List, [], ◌++◌, append-nil, get_or, set, replicate, length-replicate, leb,
  if◌then◌else◌, if-elim, arith,
}

module _ {T : Type 0} (item_of : ℕ → T) (Terminal : T → Type 0) where
  get_or-replicate : (n i : ℕ) → get_or (replicate n (let o : Option T = none in o)) i none ≡ none
  get_or-replicate zero i = refl
  get_or-replicate (suc n) zero = refl
  get_or-replicate (suc n) (suc i) = get_or-replicate n i

  new-IsRunning :
      (capacity total_jobs : ℕ) → IsRunning item_of Terminal (new capacity total_jobs) []
  unfolding new
  new-IsRunning capacity total_jobs = record {
    window = record {
      sized = length-replicate (max capacity 16) none;
      roomy = omega arith;
      holds = λ k small. inl (get_or-replicate (max capacity 16) _);
    };
    in_order = refl;
    within = omega arith;
    latched = λ e p. cc p;
  }

  push-IsDelivering :
      (q q' : OrderedPrefetchQueue T) (job : ℕ) (taken : List T)
      → q.next_read ≤ job
      → push job (item_of job) q ≡ stored q'
      → IsDelivering item_of Terminal q taken
      → IsDelivering item_of Terminal q' taken
  unfolding push
  push-IsDelivering q q' job taken from done h =
      let (near, unshut, same) = picked _ q.closed _ q' done in
      subst (λ r. IsDelivering item_of Terminal r taken) same (go near unshut h)
    where
      picked :
          (c d : Bool) (a b : OrderedPrefetchQueue T)
          → (if c then waits else if d then refused else stored a) ≡ stored b
          → (c ≡ false) × (d ≡ false) × (a ≡ b)
      picked true d a b e = absurd (ground arith)
      picked false true a b e = absurd (ground arith)
      picked false false a b e = (refl, refl, cc)

      go :
          (leb (q.next_read + q.capacity) job && not q.closed) ≡ false
          → q.closed ≡ false
          → IsDelivering item_of Terminal q taken
          → IsDelivering item_of Terminal
              (record q { slots = set q.slots (job % q.capacity) (some (item_of job)) })
              taken
      go near unshut (inr r) = absurd (ground (arith, r.latched))
      go near unshut (inl r) = inl (record {
        window =
            stored-IsWindow item_of Terminal q job from (ground (arith, near, unshut)) r.window;
        in_order = r.in_order;
        within = r.within;
        latched = r.latched;
      })

  close-IsDelivering :
      (q : OrderedPrefetchQueue T) (taken : List T)
      → IsDelivering item_of Terminal q taken
      → IsDelivering item_of Terminal (close q) taken
  unfolding close
  close-IsDelivering q taken (inr h) = inr (record {
    count = h.count;
    last = h.last;
    ends = h.ends;
    within = h.within;
    failed = h.failed;
    past = h.past;
    latched = refl;
    spent = h.spent;
  })
  close-IsDelivering q taken (inl h) = inl (record {
    window = record { sized = h.window.sized; roomy = h.window.roomy; holds = h.window.holds };
    in_order = h.in_order;
    within = h.within;
    latched = λ e p. (refl, (h.latched e p).1);
  })

  fail-IsDelivering :
      (q : OrderedPrefetchQueue T) (e : T) (taken : List T)
      → Terminal e
      → IsDelivering item_of Terminal q taken
      → IsDelivering item_of Terminal (fail e q) taken
  unfolding fail
  fail-IsDelivering q e taken t h =
      if-elim (λ r. IsDelivering item_of Terminal r taken) (not q.closed) _ q
        (λ running. go (ground (arith, running)) h) (λ shut. h)
    where
      go :
          q.closed ≡ false
          → IsDelivering item_of Terminal q taken
          → IsDelivering item_of Terminal (record q { terminal_item = some e; closed = true }) taken
      go running (inr r) = absurd (ground (arith, r.latched))
      go running (inl r) = inl (record {
        window = record { sized = r.window.sized; roomy = r.window.roomy; holds = r.window.holds };
        in_order = r.in_order;
        within = r.within;
        latched = λ d p. (refl, subst Terminal (let same : e ≡ d = cc p in same) t);
      })

  Step-IsDelivering :
      (q q' : OrderedPrefetchQueue T) (taken items : List T)
      → Step item_of Terminal q items q'
      → IsDelivering item_of Terminal q taken
      → IsDelivering item_of Terminal q' (taken ++ items)
  Step-IsDelivering q q' taken items (pushes job from done) h =
      subst (IsDelivering item_of Terminal q') (sym (append-nil taken))
        (push-IsDelivering q q' job taken from done h)
  Step-IsDelivering q q' taken items closes h =
      subst (IsDelivering item_of Terminal (close q)) (sym (append-nil taken))
        (close-IsDelivering q taken h)
  Step-IsDelivering q q' taken items (fails e t) h =
      subst (IsDelivering item_of Terminal (fail e q)) (sym (append-nil taken))
        (fail-IsDelivering q e taken t h)
  Step-IsDelivering q q' taken items (drains min_batch max_batch) h =
      drain_into-Delivers item_of Terminal min_batch max_batch q taken h
  Step-IsDelivering q q' taken items (fills wanted) h =
      resume_fill-Delivers item_of Terminal wanted q taken h

  -- If each job is stored with its item, and not after its turn to be read has passed, then whatever
  -- the threads do, in whatever order: the items taken from the queue are those of the
  -- first jobs, each once and in the order of the jobs, as many as `next_read` says; or those of
  -- some first jobs and, behind them, one item that a worker failed with, and then the queue is
  -- closed and gives no more.
  pub Run-IsDelivering :
      (capacity total_jobs : ℕ) (q : OrderedPrefetchQueue T) (taken : List T)
      → Run item_of Terminal capacity total_jobs q taken
      → IsDelivering item_of Terminal q taken
  Run-IsDelivering capacity total_jobs q taken starts = inl (new-IsRunning capacity total_jobs)
  Run-IsDelivering capacity total_jobs q taken
        (steps {q = p} {taken = before} {items = items} run step) =
      Step-IsDelivering p q before items step (Run-IsDelivering capacity total_jobs p before run)
