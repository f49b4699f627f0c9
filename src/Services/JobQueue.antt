-- ===== src/Services/JobQueue.antt =====
-- The job queue of services/job_queue.py. Clock readings are in milliseconds and arguments, and so are
-- the random job ids. The callable of a job is a value of `F`; what a call of it does, the jobs that it
-- submits and whether it raises, is a parameter. `submitted_at`, which nothing reads, is left out.
-- Publishing does not raise: `_publish` catches.
pub mod Jobs
pub mod Soundness
pub mod Invariant
pub mod Retries
pub mod Attempts
mod Tests
use aura_aioscpu.Services.JobQueue.Jobs.{
  queued, running, retrying, done, failed, cancelled, Job, job_order, JobEvent, job_queued,
  job_started, job_complete, job_failed, job_retrying, JobQueue, Submission, Call, Readings,
}
use aura_aioscpu.Prelude.{
  ltb, if◌then◌else◌, string_eq, nat_eq, ◌==◌, length, drop, lookup, insert, erase, ℕ, zero, suc,
  ◌+◌, ◌-◌, ◌*◌, ◌^◌, String, Bool, true, false, Option, none, some, List, [], ◌∷◌, ◌++◌,
}
use aura_aioscpu.Prelude.Heapq.{heappush, heapify}

module _ {F : Type 0} where
  unfoldable pub publish_event : JobEvent → JobQueue F → JobQueue F
  publish_event e q = record q { published = q.published ++ e ∷ [] }

  unfoldable pub new_job : Submission F → ℕ → Job F
  new_job s seq = record {
    name = s.name;
    fn = s.fn;
    priority = s.priority;
    max_retries = s.max_retries;
    job_id = s.job_id;
    attempts = 0;
    next_run_at = s.now + s.delay_ms;
    state = queued;
    error = "";
    elapsed_ms = 0;
    seq = seq;
  }

  unfoldable pub push : Job F → JobQueue F → JobQueue F
  push job q = record q { queue = heappush job q.queue }

  unfoldable pub submit : Submission F → JobQueue F → JobQueue F
  submit s q =
      let job = new_job s (q.seq + 1) in
      publish_event (job_queued s.name s.job_id s.priority)
        (push job (record q { seq = q.seq + 1 }))

  unfoldable pub submit_all : List (Submission F) → JobQueue F → JobQueue F
  submit_all [] q = q
  submit_all (s ∷ ss) q = submit_all ss (submit s q)

  -- `l[-n:]`, which is all of `l` where `n` is 0.
  unfoldable pub last_entries : ℕ → List (Job F) → List (Job F)
  last_entries zero l = l
  last_entries (suc n) l = drop (length l - suc n) l

  unfoldable pub trim_history : JobQueue F → JobQueue F
  trim_history q =
      if ltb q.max_history (length q.history)
      then record q { history = last_entries q.max_history q.history }
      else q

  unfoldable pub archive : Job F → JobQueue F → JobQueue F
  archive job q = trim_history (record q { history = q.history ++ job ∷ [] })

  -- The job of the id, and the other ones.
  unfoldable pub take_job : String → List (Job F) → Option (Job F × List (Job F))
  take_job id [] = none
  take_job id (job ∷ jobs) =
      let rest = take_job id jobs in
      if job.job_id == id
      then some (job, jobs)
      else elim rest [ none ↦ none | some (found, others) ↦ some (found, job ∷ others) ]

  unfoldable pub cancel : String → JobQueue F → JobQueue F × Bool
  cancel id q = elim (take_job id q.queue) [
    | none ↦ (q, false)
    | some (job, others) ↦
        (archive (record job { state = cancelled }) (record q { queue = heapify others }), true)
  ]

  unfoldable pub status : String → JobQueue F → Option (Job F)
  status id q = elim (lookup id q.active) [
    | none ↦ elim (take_job id q.history) [ none ↦ none | some (job, _) ↦ some job ]
    | some job ↦ some job
  ]

  unfoldable pub list_history : ℕ → JobQueue F → List (Job F)
  list_history limit q = last_entries limit q.history

  -- `_drain_one` up to the call, for the job that is popped.
  unfoldable pub begin_job : Job F → Job F
  begin_job job = record job { state = running; attempts = job.attempts + 1 }

  unfoldable pub activate : Job F → List (Job F) → JobQueue F → JobQueue F
  activate job rest q =
      publish_event (job_started job.name job.job_id)
        (record q { queue = rest; active = insert job.job_id job q.active })

  unfoldable pub deactivate : Job F → JobQueue F → JobQueue F
  deactivate job q = record q { active = erase job.job_id q.active }

  unfoldable pub complete : Readings → Job F → JobQueue F → JobQueue F
  complete r job q =
      let job' = record job { elapsed_ms = r.finished - r.t0; state = done } in
      archive job'
        (deactivate job (publish_event (job_complete job.name job.job_id (r.finished - r.t0)) q))

  unfoldable pub retry : Readings → Job F → JobQueue F → JobQueue F
  retry r job q =
      let backoff = 2 ^ job.attempts in
      let job' = record job { next_run_at = r.retried + backoff * 1000; state = retrying } in
      deactivate job
        (push job' (publish_event (job_retrying job.name job.job_id job.attempts backoff) q))

  unfoldable pub fail : Job F → JobQueue F → JobQueue F
  fail job q =
      archive (record job { state = failed })
        (deactivate job (publish_event (job_failed job.name job.job_id job.attempts job.error) q))

  -- The `except` branch.
  unfoldable pub settle : Readings → String → Job F → JobQueue F → JobQueue F
  settle r error job q =
      let job' = record job { elapsed_ms = r.finished - r.t0; error = error } in
      if ltb job'.attempts job'.max_retries then retry r job' q else fail job' q

  unfoldable pub run_job : Readings → Call F → Job F → JobQueue F → JobQueue F
  run_job r called job q = elim called.error [
    | none ↦ complete r job (submit_all called.submitted q)
    | some e ↦ settle r e job (submit_all called.submitted q)
  ]

  unfoldable pub drain_one : (F → Call F) → Readings → JobQueue F → JobQueue F
  drain_one call r q =
      if q.is_running
      then elim q.queue [
        | [] ↦ q
        | job ∷ rest ↦
            if ltb r.now job.next_run_at
            then q
            else run_job r (call job.fn) (begin_job job) (activate (begin_job job) rest q)
      ]
      else q

  -- `start` and `stop`; the scheduler that calls `_drain_one` is not modelled here.
  unfoldable pub start : JobQueue F → JobQueue F
  start q = record q { is_running = true }

  unfoldable pub stop : JobQueue F → JobQueue F
  stop q = record q { is_running = false }
