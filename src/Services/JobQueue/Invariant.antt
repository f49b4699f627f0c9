-- ===== src/Services/JobQueue/Invariant.antt =====
-- The invariant of services/job_queue.py's `JobQueue`, for every sequence of calls.

use aura_aioscpu.Prelude.{string_eq, nat_eq, String, List, [], ◌∷◌}
use aura_aioscpu.Services.JobQueue.Jobs.{job_order, JobQueue, Submission, Call, Readings}
use aura_aioscpu.Services.JobQueue.{submit, cancel, drain_one, start, stop}
use aura_aioscpu.Services.JobQueue.Soundness.{
  IsSound, submit-IsSound, cancel-IsSound, drain_one-IsSound,
}

-- The calls that change a queue.
pub data Step (F : Type 0) : Type 0 where
  start_step stop_step : Step F
  submit_step : Submission F → Step F
  cancel_step : String → Step F
  drain_step : Readings → Step F

unfoldable pub apply : {F : Type 0} → (F → Call F) → Step F → JobQueue F → JobQueue F
apply call start_step q = start q
apply call stop_step q = stop q
apply call (submit_step s) q = submit s q
apply call (cancel_step id) q = (cancel id q).0
apply call (drain_step r) q = drain_one call r q

unfoldable pub run : {F : Type 0} → (F → Call F) → List (Step F) → JobQueue F → JobQueue F
run call [] q = q
run call (s ∷ ss) q = run call ss (apply call s q)

apply-IsSound :
    {F : Type 0} (call : F → Call F) (s : Step F) (q : JobQueue F)
    → IsSound q
    → IsSound (apply call s q)
unfolding apply start stop
apply-IsSound call start_step q h = h
apply-IsSound call stop_step q h = h
apply-IsSound call (submit_step s) q h = submit-IsSound s q h
apply-IsSound call (cancel_step id) q h = cancel-IsSound id q h
apply-IsSound call (drain_step r) q h = drain_one-IsSound call r q h

-- Of a queue of which it holds at first, after any calls and whatever the jobs do: the queue is ordered
-- by urgency, each queued job has an attempt left, no past job has had more than `max_retries`
-- attempts, or one where that is 0, and the history is no longer than its maximum.
pub run-IsSound :
    {F : Type 0} (call : F → Call F) (steps : List (Step F)) (q : JobQueue F)
    → IsSound q
    → IsSound (run call steps q)
unfolding run
run-IsSound call [] q h = h
run-IsSound call (s ∷ ss) q h = run-IsSound call ss (apply call s q) (apply-IsSound call s q h)
