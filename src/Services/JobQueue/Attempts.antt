-- ===== src/Services/JobQueue/Attempts.antt =====
-- How often services/job_queue.py runs a job that raises each time.
use aura_aioscpu.Prelude.{
  ltb, if◌then◌else◌, Bool-cases, Option-cases, if_ind, string_eq, nat_eq, ◌==◌, length, ℕ, suc,
  ◌+◌, ◌*◌, ◌^◌, ◌≤◌, ◌<◌, String, ◌≡◌, refl, ap, ◌∙◌, inl, inr, true, false, some, List, [], ◌∷◌,
  map, arith,
}
use aura_aioscpu.Prelude.Heapq.{heappush}
use aura_aioscpu.Services.JobQueue.Jobs.{Job, job_order, JobQueue, Submission, Call, Readings}
use aura_aioscpu.Services.JobQueue.{
  publish_event, push, submit, submit_all, trim_history, archive, begin_job, activate, deactivate,
  complete, retry, fail, settle, run_job, drain_one,
}
use aura_aioscpu.Services.JobQueue.Retries.{after_failure, drain_one_raises}

module _ {F : Type 0} where
  archive_running : (job : Job F) (q : JobQueue F) → (archive job q).is_running ≡ q.is_running
  unfolding archive trim_history
  archive_running job q =
      if_ind (λ (z : JobQueue F). z.is_running ≡ q.is_running) (ltb _ _) (λ _. refl) (λ _. refl)

  submit_all_running :
      (ss : List (Submission F)) (q : JobQueue F) → (submit_all ss q).is_running ≡ q.is_running
  unfolding submit_all submit push publish_event
  submit_all_running [] q = refl
  submit_all_running (s ∷ ss) q = submit_all_running ss (submit s q)

  run_job_running :
      (r : Readings) (called : Call F) (job : Job F) (q : JobQueue F)
      → (run_job r called job q).is_running ≡ q.is_running
  unfolding run_job complete settle retry fail deactivate publish_event push
  run_job_running r called job q =
      let same = submit_all_running called.submitted q in
      elim (Option-cases called.error) [
        | inl ended ↦ rw (ended, run_job) (archive_running _ _ ∙ same)
        | inr (e, raised) ↦
            rw (raised, run_job)
              (if_ind (λ (z : JobQueue F). z.is_running ≡ q.is_running)
                (ltb job.attempts job.max_retries) (λ _. same) (λ _. archive_running _ _ ∙ same))
      ]

  drain_from_running :
      (call : F → Call F) (r : Readings) (q : JobQueue F) (jobs : List (Job F))
      → (elim jobs as (λ _. JobQueue F) [
        | [] ↦ q
        | job ∷ rest ↦
            if ltb r.now job.next_run_at
            then q
            else run_job r (call job.fn) (begin_job job) (activate (begin_job job) rest q)
      ]).is_running
        ≡ q.is_running
  unfolding activate publish_event
  drain_from_running call r q [] = refl
  drain_from_running call r q (job ∷ rest) =
      if_ind (λ (z : JobQueue F). z.is_running ≡ q.is_running) (ltb r.now job.next_run_at)
        (λ _. refl)
        (λ _. run_job_running r (call job.fn) (begin_job job) (activate (begin_job job) rest q))

  drain_one_running :
      (call : F → Call F) (r : Readings) (q : JobQueue F)
      → (drain_one call r q).is_running ≡ q.is_running
  unfolding drain_one
  drain_one_running call r q =
      if_ind (λ (z : JobQueue F). z.is_running ≡ q.is_running) q.is_running
        (λ _. drain_from_running call r q q.queue) (λ _. refl)

  drain_one_empty :
      (call : F → Call F) (r : Readings) (q : JobQueue F)
      → q.queue ≡ []
      → (drain_one call r q).queue ≡ []
  unfolding drain_one
  drain_one_empty call r q nothing =
      if_ind (λ (z : JobQueue F). z.queue ≡ []) q.is_running (λ _. simp (nothing) refl)
        (λ _. nothing)

  -- Drains one after another.
  unfoldable pub drain_all : (F → Call F) → List Readings → JobQueue F → JobQueue F
  drain_all call [] q = q
  drain_all call (r ∷ rs) q = drain_all call rs (drain_one call r q)

  drain_all_empty :
      (call : F → Call F) (rs : List Readings) (q : JobQueue F)
      → q.queue ≡ []
      → (drain_all call rs q).queue ≡ []
  unfolding drain_all
  drain_all_empty call [] q nothing = nothing
  drain_all_empty call (r ∷ rs) q nothing =
      drain_all_empty call rs (drain_one call r q) (drain_one_empty call r q nothing)

-- Each drain comes when the back-off of 2 ^ attempts seconds after the one before is over.
abbrev pub IsLate : ℕ → ℕ → List Readings → Type 0
IsLate attempts due [] = Unit
IsLate attempts due (r ∷ rs) =
    (due ≤ r.now) × IsLate (attempts + 1) (r.retried + 2 ^ (attempts + 1) * 1000) rs

-- The number of runs that `max_retries` allows: a job is run once where it is 0.
abbrev pub most_attempts : ℕ → ℕ
most_attempts max_retries = if max_retries == 0 then 1 else max_retries

-- The attempts of a job that is queued as long as there are fewer than the limit.
abbrev pub attempts_below : ℕ → ℕ → List ℕ
attempts_below n limit = if ltb n limit then n ∷ [] else []

below_now : (n m : ℕ) → n < m → n ∷ [] ≡ attempts_below (n + 0) m
below_now n m h =
    let same : n + 0 ≡ n = omega arith in
    let less : ltb n m ≡ true = ground (arith, h) in rw (same, less) refl

below_none :
    (n m l : ℕ)
    → ltb (n + 1) m ≡ false
    → n < most_attempts m
    → [] ≡ attempts_below (n + suc l) (most_attempts m)
below_none n m l last below =
    let over : ltb (n + suc l) (most_attempts m) ≡ false = ground (arith, last, below) in
    rw (over) refl

below_more : (n m : ℕ) → ltb (n + 1) m ≡ true → n + 1 < most_attempts m
below_more n m more = ground (arith, more)

-- The attempts of the jobs that are queued.
abbrev pub attempts_of : {F : Type 0} → JobQueue F → List ℕ
attempts_of q = map (λ j. j.attempts) q.queue

module _ {F : Type 0} (call : F → Call F) where
  one_raises :
      (r : Readings) (q : JobQueue F) (job : Job F) (e : String)
      → q.is_running ≡ true
      → q.queue ≡ job ∷ []
      → job.next_run_at ≤ r.now
      → call job.fn ≡ record { submitted = []; error = some e }
      → (drain_one call r q).queue
        ≡ (if ltb (job.attempts + 1) job.max_retries then after_failure r e job ∷ [] else [])
  unfolding submit_all activate publish_event heappush
  one_raises r q job e on alone due raised =
      drain_one_raises call r q job [] e on alone due (ap (λ (c : Call F). c.error) raised)
      ∙ ap
          (λ (c : Call F).
            if ltb (job.attempts + 1) job.max_retries
            then heappush (after_failure r e job)
                (submit_all c.submitted (activate (begin_job job) [] q)).queue
            else (submit_all c.submitted (activate (begin_job job) [] q)).queue)
          raised

  drains_attempts :
      (rs : List Readings) (q : JobQueue F) (job : Job F) (e : String)
      → q.is_running ≡ true
      → q.queue ≡ job ∷ []
      → call job.fn ≡ record { submitted = []; error = some e }
      → IsLate job.attempts job.next_run_at rs
      → job.attempts < most_attempts job.max_retries
      → attempts_of (drain_all call rs q)
        ≡ (attempts_below (job.attempts + length rs) (most_attempts job.max_retries))
  unfolding drain_all
  drains_attempts [] q job e on alone raised late below =
      ap (map (λ j. j.attempts)) alone
      ∙ below_now job.attempts (most_attempts job.max_retries) below
  drains_attempts (r ∷ rs) q job e on alone raised late below =
      let after = drain_one call r q in
      let left = one_raises r q job e on alone late.0 raised in
      let on' = drain_one_running call r q ∙ on in
      elim (Bool-cases (ltb (job.attempts + 1) job.max_retries)) [
        | inr last ↦
            let nothing : after.queue ≡ [] =
              left ∙ ap (λ b. if b then after_failure r e job ∷ [] else []) last in
            ap (map (λ j. j.attempts)) (drain_all_empty call rs after nothing)
            ∙ below_none job.attempts job.max_retries (length rs) last below
        | inl more ↦
            let job' = after_failure r e job in
            let again : after.queue ≡ job' ∷ [] =
              left ∙ ap (λ b. if b then job' ∷ [] else []) more in
            drains_attempts rs after job' e on' again raised late.1
              (below_more job.attempts job.max_retries more)
            ∙ ap (λ k. attempts_below k (most_attempts job.max_retries)) (omega arith)
      ]

  -- A job that raises at each run and submits nothing, alone in a running queue and drained each time after
  -- its back-off: after as many drains as are fewer than `max_retries`, or than 1 where that is 0, it is in
  -- the queue with as many attempts, and after that many drains or more it has left the queue.
  pub attempts_of-drain_all :
      (rs : List Readings) (q : JobQueue F) (job : Job F) (e : String)
      → q.is_running ≡ true
      → q.queue ≡ job ∷ []
      → job.attempts ≡ 0
      → call job.fn ≡ record { submitted = []; error = some e }
      → IsLate 0 job.next_run_at rs
      → attempts_of (drain_all call rs q)
        ≡ attempts_below (length rs) (most_attempts job.max_retries)
  attempts_of-drain_all rs q job e on alone new raised late =
      let some_run : 0 < most_attempts job.max_retries = ground arith in
      drains_attempts rs q job e on alone raised (rw new late) (rw new some_run)
      ∙ ap (λ k. attempts_below k (most_attempts job.max_retries)) (omega (arith, new))
