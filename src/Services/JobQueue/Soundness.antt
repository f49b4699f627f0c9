-- ===== src/Services/JobQueue/Soundness.antt =====
-- What each operation of services/job_queue.py's `JobQueue` keeps.
use aura_aioscpu.Prelude.{
  ltb, if◌then◌else◌, Option-cases, if_ind, string_eq, nat_eq, ◌==◌, length, All, length-drop,
  All-append, All-drop, has, ℕ, zero, suc, ◌+◌, ◌-◌, ◌≤◌, String, inl, inr, Bool, true, false,
  Option, none, some, List, [], ◌∷◌, ◌++◌, arith,
}
use aura_aioscpu.Prelude.Heapq.{
  heapify, IsSorted, All-heappush, heappush-IsSorted, All-heapify, heapify-IsSorted,
}
use aura_aioscpu.Services.JobQueue.Jobs.{
  cancelled, Job, job_order, JobQueue, Submission, Call, Readings,
}
use aura_aioscpu.Services.JobQueue.{
  publish_event, new_job, push, submit, submit_all, last_entries, trim_history, archive, take_job,
  cancel, begin_job, activate, deactivate, complete, retry, fail, settle, run_job, drain_one,
}

-- A queued job has an attempt left; an attempted one has had at most `max_retries`, or one.
abbrev pub HasAttempt : {F : Type 0} → Job F → Type 0
HasAttempt job = job.attempts ≤ job.max_retries - 1

abbrev pub IsBounded : {F : Type 0} → Job F → Type 0
IsBounded job = job.attempts ≤ suc (job.max_retries - 1)

-- The queue is ordered by urgency, the attempts are bounded, and the history is no longer than its
-- maximum, which is at least one.
pub record Sound {F : Type 0} (queue history : List (Job F)) (max_history : ℕ) : Type 0 where
  pub sorted : IsSorted queue
  pub queued_jobs : All HasAttempt queue
  pub past_jobs : All IsBounded history
  pub short : length history ≤ max_history
  pub roomy : 1 ≤ max_history

abbrev pub IsSound : {F : Type 0} → JobQueue F → Type 0
IsSound q = Sound q.queue q.history q.max_history

-- What a call of `take_job` finds.
abbrev Taken : {F : Type 0} → (Job F → Type 0) → Option (Job F × List (Job F)) → Type 0
Taken P none = Unit
Taken P (some (job, others)) = P job × All P others

module _ {F : Type 0} where
  pub last_entries-All :
      (P : Job F → Type 0) (n : ℕ) (l : List (Job F)) → All P l → All P (last_entries n l)
  unfolding last_entries
  last_entries-All P zero l h = h
  last_entries-All P (suc n) l h = All-drop P (length l - suc n) l h

  length-last_entries : (n : ℕ) (l : List (Job F)) → 1 ≤ n → length (last_entries n l) ≤ n
  unfolding last_entries
  length-last_entries zero l h = omega arith
  length-last_entries (suc n) l h = omega (arith, length-drop (length l - suc n) l)

  put_back :
      (P : Job F → Type 0) (job : Job F) (o : Option (Job F × List (Job F)))
      → P job
      → Taken P o
      → Taken P (elim o [ none ↦ none | some (found, others) ↦ some (found, job ∷ others) ])
  put_back P job none p h = tt
  put_back P job (some (found, others)) p h = (h.0, (p, h.1))

  take_job-All :
      (P : Job F → Type 0) (id : String) (jobs : List (Job F))
      → All P jobs
      → Taken P (take_job id jobs)
  unfolding take_job
  take_job-All P id [] h = tt
  take_job-All P id (job ∷ jobs) h =
      if_ind (Taken P) (job.job_id == id) (λ _. h)
        (λ _. put_back P job (take_job id jobs) h.0 (take_job-All P id jobs h.1))

  push-IsSound : (job : Job F) (q : JobQueue F) → HasAttempt job → IsSound q → IsSound (push job q)
  unfolding push
  push-IsSound job q has h = record {
    sorted = heappush-IsSorted job q.queue h.sorted;
    queued_jobs = All-heappush HasAttempt job q.queue has h.queued_jobs;
    past_jobs = h.past_jobs;
    short = h.short;
    roomy = h.roomy;
  }

  archive-IsSound :
      (job : Job F) (q : JobQueue F) → IsBounded job → IsSound q → IsSound (archive job q)
  unfolding archive trim_history
  archive-IsSound job q bounded h =
      let longer = q.history ++ job ∷ [] in
      let all : All IsBounded longer =
        All-append IsBounded q.history (job ∷ []) h.past_jobs (bounded, tt) in
      if_ind (λ (z : JobQueue F). IsSound z) (ltb q.max_history (length longer))
        (λ _. record {
          sorted = h.sorted;
          queued_jobs = h.queued_jobs;
          past_jobs = last_entries-All IsBounded q.max_history longer all;
          short = length-last_entries q.max_history longer h.roomy;
          roomy = h.roomy;
        })
        (λ fits. record {
          sorted = h.sorted;
          queued_jobs = h.queued_jobs;
          past_jobs = all;
          short = ground (arith, fits);
          roomy = h.roomy;
        })

  pub submit-IsSound : (s : Submission F) (q : JobQueue F) → IsSound q → IsSound (submit s q)
  unfolding submit publish_event new_job
  submit-IsSound s q h =
      push-IsSound (new_job s (q.seq + 1)) (record q { seq = q.seq + 1 }) (omega arith) h

  submit_all-IsSound :
      (ss : List (Submission F)) (q : JobQueue F) → IsSound q → IsSound (submit_all ss q)
  unfolding submit_all
  submit_all-IsSound [] q h = h
  submit_all-IsSound (s ∷ ss) q h = submit_all-IsSound ss (submit s q) (submit-IsSound s q h)

  cancel-Taken :
      (id : String) (q : JobQueue F) (o : Option (Job F × List (Job F)))
      → IsSound q
      → Taken HasAttempt o
      → IsSound
          (elim o as (λ _. JobQueue F × Bool) [
            | none ↦ (q, false)
            | some (job, others) ↦ (
              archive (record job { state = cancelled }) (record q { queue = heapify others }),
              true,
            )
          ]).0
  cancel-Taken id q none h taken = h
  cancel-Taken id q (some (job, others)) h taken =
      archive-IsSound (record job { state = cancelled }) (record q { queue = heapify others })
        (omega (arith, taken.0))
        (record {
          sorted = heapify-IsSorted others;
          queued_jobs = All-heapify HasAttempt others taken.1;
          past_jobs = h.past_jobs;
          short = h.short;
          roomy = h.roomy;
        })

  pub cancel-IsSound : (id : String) (q : JobQueue F) → IsSound q → IsSound (cancel id q).0
  unfolding cancel
  cancel-IsSound id q h =
      cancel-Taken id q (take_job id q.queue) h (take_job-All HasAttempt id q.queue h.queued_jobs)

  -- The end of a drain, for a job whose attempt is counted.
  complete-IsSound :
      (r : Readings) (job : Job F) (q : JobQueue F)
      → IsBounded job
      → IsSound q
      → IsSound (complete r job q)
  unfolding complete deactivate publish_event
  complete-IsSound r job q bounded h = archive-IsSound _ _ bounded h

  settle-IsSound :
      (r : Readings) (error : String) (job : Job F) (q : JobQueue F)
      → IsBounded job
      → IsSound q
      → IsSound (settle r error job q)
  unfolding settle retry fail deactivate publish_event
  settle-IsSound r error job q bounded h =
      if_ind (λ (z : JobQueue F). IsSound z) (ltb job.attempts job.max_retries)
        (λ left. push-IsSound _ _ (ground (arith, left)) h) (λ _. archive-IsSound _ _ bounded h)

  run_job-IsSound :
      (r : Readings) (called : Call F) (job : Job F) (q : JobQueue F)
      → IsBounded job
      → IsSound q
      → IsSound (run_job r called job q)
  unfolding run_job
  run_job-IsSound r called job q bounded h =
      let after = submit_all-IsSound called.submitted q h in
      elim (Option-cases called.error) [
        | inl ended ↦ rw (ended, run_job) (complete-IsSound r job _ bounded after)
        | inr (e, raised) ↦ rw (raised, run_job) (settle-IsSound r e job _ bounded after)
      ]

  drain_from :
      (call : F → Call F) (r : Readings) (q : JobQueue F) (jobs : List (Job F))
      → IsSound q
      → Sound jobs q.history q.max_history
      → IsSound (elim jobs as (λ _. JobQueue F) [
        | [] ↦ q
        | job ∷ rest ↦
            if ltb r.now job.next_run_at
            then q
            else run_job r (call job.fn) (begin_job job) (activate (begin_job job) rest q)
      ])
  unfolding activate publish_event begin_job
  drain_from call r q [] h now = h
  drain_from call r q (job ∷ rest) h now =
      if_ind (λ (z : JobQueue F). IsSound z) (ltb r.now job.next_run_at) (λ _. h)
        (λ _.
          run_job-IsSound r (call job.fn) (begin_job job) (activate (begin_job job) rest q)
            (omega (arith, now.queued_jobs.0))
            (record {
              sorted = now.sorted.1;
              queued_jobs = now.queued_jobs.1;
              past_jobs = h.past_jobs;
              short = h.short;
              roomy = h.roomy;
            }))

  pub drain_one-IsSound :
      (call : F → Call F) (r : Readings) (q : JobQueue F) → IsSound q → IsSound (drain_one call r q)
  unfolding drain_one
  drain_one-IsSound call r q h =
      if_ind (λ (z : JobQueue F). IsSound z) q.is_running (λ _. drain_from call r q q.queue h h)
        (λ _. h)
