-- ===== src/Kernel/Scheduler.antt =====
-- The scheduler of kernel/scheduler.py. A task or a job is a value of `F`, and what a call of it does is
-- a parameter: whether it raises. Jobs that schedule jobs from within a tick are left out. heapq
-- compares two job entries with the same next run and the same interval by their callables, which
-- raises TypeError where these are not the same object: the model raises where such an entry is in the
-- queue that one is put into, and says nothing of the queue after that. Registering a service and the
-- hint handler, which only logs, are left out.
pub mod Jobs
mod Tests
use aura_aioscpu.Prelude.{
  ltb, leb, if◌then◌else◌, string_eq, nat_eq, ◌==◌, length, Outcome, ok, raise, ℕ, zero, suc, ◌+◌,
  ◌≡◌, Bool, true, false, not, ◌&&◌, ◌||◌, Option, none, some, List, [], ◌∷◌, arith,
}
use aura_aioscpu.Prelude.Heapq.{LessThan, heappush}

-- `_TaskEntry`
pub record TaskEntry (F : Type 0) : Type 0 where
  pub priority : ℕ
  pub seq : ℕ
  pub task : F

-- A job entry: the list of the next run, the interval and the callable. Times are in milliseconds.
pub record JobEntry (F : Type 0) : Type 0 where
  pub next_run : ℕ
  pub interval_ms : ℕ
  pub job : F

-- `_TaskEntry.__lt__`
unfoldable pub task_less : {F : Type 0} → TaskEntry F → TaskEntry F → Bool
task_less a b =
    if not (a.priority == b.priority) then ltb a.priority b.priority else ltb a.seq b.seq

pub task_less_asymmetric :
    {F : Type 0} (a b : TaskEntry F) → task_less a b ≡ true → task_less b a ≡ false
unfolding task_less
task_less_asymmetric a b h = ground arith

pub task_less_transitive :
    {F : Type 0} (a b c : TaskEntry F)
    → task_less b a ≡ false
    → task_less c b ≡ false
    → task_less c a ≡ false
unfolding task_less
task_less_transitive a b c h k = ground arith

instance abbrev pub task_order : {F : Type 0} → LessThan (TaskEntry F)
task_order = record {
  less = task_less;
  asymmetric = task_less_asymmetric;
  negatively_transitive = task_less_transitive;
}

-- The order of two lists, by their first elements and then by their second ones.
unfoldable pub job_less : {F : Type 0} → JobEntry F → JobEntry F → Bool
job_less a b =
    if not (a.next_run == b.next_run)
    then ltb a.next_run b.next_run
    else ltb a.interval_ms b.interval_ms

pub job_less_asymmetric :
    {F : Type 0} (a b : JobEntry F) → job_less a b ≡ true → job_less b a ≡ false
unfolding job_less
job_less_asymmetric a b h = ground arith

pub job_less_transitive :
    {F : Type 0} (a b c : JobEntry F)
    → job_less b a ≡ false
    → job_less c b ≡ false
    → job_less c a ≡ false
unfolding job_less
job_less_transitive a b c h k = ground arith

instance abbrev pub job_order : {F : Type 0} → LessThan (JobEntry F)
job_order = record {
  less = job_less;
  asymmetric = job_less_asymmetric;
  negatively_transitive = job_less_transitive;
}

pub record Scheduler (F : Type 0) : Type 0 where
  pub task_queue : List (TaskEntry F)
  pub job_queue : List (JobEntry F)
  pub counter : ℕ

pub data SchedulerError : Type 0 where
  value_error type_error : SchedulerError

module _ {F : Type 0} where
  unfoldable pub submit_task : F → ℕ → Scheduler F → Scheduler F
  submit_task task priority s =
      let entry : TaskEntry F = record { priority = priority; seq = s.counter + 1; task = task } in
      record s { counter = s.counter + 1; task_queue = heappush entry s.task_queue }

  -- `heappush` of a job entry, where `same` says whether two callables are the same object.
  unfoldable pub clashes : (F → F → Bool) → JobEntry F → List (JobEntry F) → Bool
  clashes same e [] = false
  clashes same e (f ∷ q) =
      e.next_run == f.next_run && e.interval_ms == f.interval_ms && not (same e.job f.job)
      || clashes same e q

  unfoldable pub push_job :
      (F → F → Bool) → JobEntry F → List (JobEntry F) → Outcome SchedulerError (List (JobEntry F))
  push_job same e q = if clashes same e q then raise type_error else ok (heappush e q)

  -- `now` is the reading of the monotonic clock. A ValueError leaves the scheduler as it is.
  unfoldable pub schedule_job :
      (F → F → Bool) → ℕ → F → ℕ → Scheduler F → Outcome SchedulerError (Scheduler F)
  schedule_job same now job interval_ms s =
      let entry : JobEntry F = record {
        next_run = now + interval_ms;
        interval_ms = interval_ms;
        job = job;
      } in
      if ltb interval_ms 1 then raise value_error else elim (push_job same entry s.job_queue) [
        | raise e ↦ raise e
        | ok jobs ↦ ok (record s { job_queue = jobs })
      ]

  -- Whether a call counts: one that raises is logged and does not.
  abbrev pub counted : (F → Bool) → F → ℕ
  counted raises f = if raises f then 0 else 1

  -- The task of a tick: the number of tasks that ran, and the other tasks.
  unfoldable pub run_task : (F → Bool) → List (TaskEntry F) → ℕ × List (TaskEntry F)
  run_task raises [] = (0, [])
  run_task raises (entry ∷ rest) = (counted raises entry.task, rest)

  unfoldable pub reschedule : ℕ → JobEntry F → JobEntry F
  reschedule now entry = record entry { next_run = now + entry.interval_ms }

  -- The loop over the jobs that are due, with fuel for its rounds: `none` if it runs out. An exception of
  -- `heappush` leaves the tick.
  unfoldable pub run_jobs :
      (F → F → Bool)
      → (F → Bool)
      → ℕ
      → ℕ
      → ℕ
      → List (JobEntry F)
      → Option (Outcome SchedulerError (ℕ × List (JobEntry F)))
  run_jobs same raises now zero ran queue = none
  run_jobs same raises now (suc fuel) ran [] = some (ok (ran, []))
  run_jobs same raises now (suc fuel) ran (entry ∷ rest) = elim (leb entry.next_run now) [
    | false ↦ some (ok (ran, entry ∷ rest))
    | true ↦ elim (push_job same (reschedule now entry) rest) [
      | raise e ↦ some (raise e)
      | ok queue ↦ run_jobs same raises now fuel (ran + counted raises entry.job) queue
    ]
  ]

  -- The tasks that are left and what the loop over the jobs gives.
  unfoldable pub end_tick :
      List (TaskEntry F)
      → Scheduler F
      → Option (Outcome SchedulerError (ℕ × List (JobEntry F)))
      → Option (Outcome SchedulerError (ℕ × Scheduler F))
  end_tick tasks s none = none
  end_tick tasks s (some (raise e)) = some (raise e)
  end_tick tasks s (some (ok (total, jobs))) =
      some (ok (total, record s { task_queue = tasks; job_queue = jobs }))

  -- The fuel is one round for each job and one for the end.
  unfoldable pub tick :
      (F → F → Bool)
      → (F → Bool)
      → ℕ
      → Scheduler F
      → Option (Outcome SchedulerError (ℕ × Scheduler F))
  tick same raises now s =
      let (ran, tasks) = run_task raises s.task_queue in
      end_tick tasks s (run_jobs same raises now (length s.job_queue + 1) ran s.job_queue)
