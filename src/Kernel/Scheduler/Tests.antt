-- ===== src/Kernel/Scheduler/Tests.antt =====
-- A run of kernel/scheduler.py's scheduler, with a task that raises, a due job and one that is not.

use aura_aioscpu.Prelude.Heapq.{heappush}
use aura_aioscpu.Prelude.{
  if◌then◌else◌, string_eq, nat_eq, length, All, ok, raise, ◌<◌, ◌≡◌, refl, Bool, true, false, not,
  some, [], ◌∷◌, arith,
}
use aura_aioscpu.Kernel.Scheduler.{
  task_order, job_less, job_order, Scheduler, type_error, clashes, push_job, run_task, reschedule,
  run_jobs, end_tick, tick,
}
use aura_aioscpu.Kernel.Scheduler.Jobs.{due_counted, tick_ends}

abbrev scheduler : Scheduler Bool
scheduler = record {
  task_queue = record { priority = 5; seq = 1; task = true } ∷ [];
  job_queue =
      record { next_run = 90; interval_ms = 100; job = false }
      ∷ record { next_run = 150; interval_ms = 20; job = false }
      ∷ [];
  counter = 1;
}

abbrev raising : Bool → Bool
raising f = f

abbrev same_job : Bool → Bool → Bool
same_job f g = if f then g else not g

-- Two jobs that are due and have the same interval: the tick raises.
abbrev twins : Scheduler Bool
twins = record {
  task_queue = [];
  job_queue =
      record { next_run = 90; interval_ms = 100; job = false }
      ∷ record { next_run = 95; interval_ms = 100; job = true }
      ∷ [];
  counter = 0;
}

tick_twins : tick same_job raising 100 twins ≡ some (raise type_error)
unfolding tick end_tick run_jobs push_job clashes reschedule heappush job_less
tick_twins = refl

tick_ends_example :
    (after : Scheduler Bool) × (tick same_job raising 100 scheduler ≡ some (ok (1, after)))
    × (after.task_queue ≡ [])
    × (length after.job_queue ≡ 2)
    × All (λ e. 100 < e.next_run) after.job_queue
unfolding job_less run_task due_counted
tick_ends_example =
    tick_ends same_job raising 100 scheduler ((refl, tt), (tt, tt)) (omega arith, (omega arith, tt))
      ((refl, tt), (tt, tt))
