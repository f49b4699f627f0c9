-- ===== src/Services/JobQueue/Tests.antt =====
-- Runs of services/job_queue.py's queue, with a job that fails.

use aura_aioscpu.Prelude.{
  if◌then◌else◌, string_eq, nat_eq, ◌≡◌, refl, Bool, true, none, some, List, [], ◌∷◌, arith,
}
use aura_aioscpu.Services.JobQueue.Jobs.{queued, Job, job_order, JobQueue, Call, Readings}
use aura_aioscpu.Services.JobQueue.Soundness.{IsSound}
use aura_aioscpu.Services.JobQueue.Attempts.{
  drain_all, attempts_below, attempts_of, attempts_of-drain_all,
}
use aura_aioscpu.Services.JobQueue.Invariant.{Step, cancel_step, drain_step, run, run-IsSound}

abbrev failing : Bool → Call Bool
failing fn = record { submitted = []; error = if fn then some "boom" else none }

abbrev job : Job Bool
job = record {
  name = "build";
  fn = true;
  priority = 1;
  max_retries = 2;
  job_id = "j1";
  attempts = 0;
  next_run_at = 50;
  state = queued;
  error = "";
  elapsed_ms = 0;
  seq = 1;
}

abbrev queue : JobQueue Bool
queue = record {
  queue = job ∷ [];
  active = [];
  history = [];
  max_history = 200;
  is_running = true;
  seq = 1;
  published = [];
}

abbrev readings : Readings
readings = record { now = 100; t0 = 100; finished = 103; retried = 104 }

queue-IsSound : IsSound queue
queue-IsSound = record {
  sorted = (tt, tt);
  queued_jobs = (omega arith, tt);
  past_jobs = tt;
  short = omega arith;
  roomy = omega arith;
}

abbrev steps : List (Step Bool)
steps = drain_step readings ∷ cancel_step "j1" ∷ []

run-IsSound_example : IsSound (run failing steps queue)
run-IsSound_example = run-IsSound failing steps queue queue-IsSound

abbrev later : Readings
later = record { now = 3000; t0 = 3000; finished = 3001; retried = 3002 }

attempts_of-drain_all_example :
    attempts_of (drain_all failing (readings ∷ later ∷ []) queue) ≡ attempts_below 2 2
attempts_of-drain_all_example =
    attempts_of-drain_all failing (readings ∷ later ∷ []) queue job "boom" refl refl refl refl
      (omega arith, (omega arith, tt))
