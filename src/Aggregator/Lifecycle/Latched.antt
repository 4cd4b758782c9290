-- ===== src/Aggregator/Lifecycle/Latched.antt =====
-- The latched failure of lifecycle.rs.
use raster_h.Aggregator.Lifecycle.{
  running, finished, failed, StreamLifecycle, in_state, ensure_runnable, runnable_in, latch_failure,
  latch_in, mark_finished, finish_in,
}
use raster_h.Common.{
  ℕ, ◌≡◌, refl, Bool, true, false, List, [], ◌∷◌, Result, ok, err, stream_failed, if◌then◌else◌,
}

-- The calls that change the state.
pub data Event : Type 0 where
  latches : List ℕ → Event
  finishes : Event

abbrev pub after : List Event → StreamLifecycle → StreamLifecycle
after [] s = s
after (latches reason ∷ es) s = after es (latch_failure s reason).1
after (finishes ∷ es) s = after es (mark_finished s)

-- What a reader is told: the first failure, else the end, else to go on.
abbrev pub verdict : Bool → List Event → Result Bool
verdict done [] = ok (if done then false else true)
verdict done (latches reason ∷ es) = err (stream_failed reason)
verdict done (finishes ∷ es) = verdict true es

failed-after :
    (es : List Event) (reason : List ℕ)
    → ensure_runnable (after es (in_state (failed reason))) ≡ err (stream_failed reason)
unfolding latch_failure latch_in mark_finished finish_in
failed-after [] reason = unfold ensure_runnable in unfold runnable_in in refl
failed-after (latches later ∷ es) reason = failed-after es reason
failed-after (finishes ∷ es) reason = failed-after es reason

finished-after :
    (es : List Event) → ensure_runnable (after es (in_state finished)) ≡ verdict true es
unfolding latch_failure latch_in mark_finished finish_in
finished-after [] = unfold ensure_runnable in unfold runnable_in in refl
finished-after (latches reason ∷ es) = failed-after es reason
finished-after (finishes ∷ es) = finished-after es

-- After any sequence of failures and ends of a running stream, `ensure_runnable` answers the
-- reason of the first failure if there was one, whether before an end or behind it; else that
-- the stream is over if there was an end; else that it runs.
pub ensure_runnable-after :
    (es : List Event) → ensure_runnable (after es (in_state running)) ≡ verdict false es
unfolding latch_failure latch_in mark_finished finish_in
ensure_runnable-after [] = unfold ensure_runnable in unfold runnable_in in refl
ensure_runnable-after (latches reason ∷ es) = failed-after es reason
ensure_runnable-after (finishes ∷ es) = finished-after es
