-- ===== src/Services/JobQueue/Retries.antt =====
-- The retries of services/job_queue.py: a job that fails, and how often it is run.
use aura_aioscpu.Prelude.{
  ltb, if◌then◌else◌, Option-cases, if_ind, string_eq, nat_eq, ==-refl, insert, erase, ◌+◌, ◌-◌,
  ◌*◌, ◌^◌, ◌≤◌, String, ◌≡◌, refl, ap, ◌∙◌, inl, inr, Bool, true, false, some, List, [], ◌∷◌,
  arith,
}
use aura_aioscpu.Prelude.Heapq.{heappush}
use aura_aioscpu.Services.JobQueue.Jobs.{
  retrying, failed, Job, job_order, job_failed, JobQueue, Submission, Call, Readings,
}
use aura_aioscpu.Services.JobQueue.{
  publish_event, push, submit, submit_all, trim_history, archive, begin_job, activate, deactivate,
  complete, retry, fail, settle, run_job, drain_one,
}

module _ {F : Type 0} where
  archive_queue : (job : Job F) (q : JobQueue F) → (archive job q).queue ≡ q.queue
  unfolding archive trim_history
  archive_queue job q =
      if_ind (λ (z : JobQueue F). z.queue ≡ q.queue) (ltb _ _) (λ _. refl) (λ _. refl)

  archive_active : (job : Job F) (q : JobQueue F) → (archive job q).active ≡ q.active
  unfolding archive trim_history
  archive_active job q =
      if_ind (λ (z : JobQueue F). z.active ≡ q.active) (ltb _ _) (λ _. refl) (λ _. refl)

  submit_all_active :
      (ss : List (Submission F)) (q : JobQueue F) → (submit_all ss q).active ≡ q.active
  unfolding submit_all submit push publish_event
  submit_all_active [] q = refl
  submit_all_active (s ∷ ss) q = submit_all_active ss (submit s q)

  if_queue :
      (b : Bool) (x y : JobQueue F) {l k : List (Job F)}
      → x.queue ≡ l
      → y.queue ≡ k
      → (if b then x else y).queue ≡ (if b then l else k)
  if_queue true x y h g = h
  if_queue false x y h g = g

  settle_queue :
      (r : Readings) (e : String) (job : Job F) (q : JobQueue F)
      → (settle r e job q).queue ≡ (
          if ltb job.attempts job.max_retries
          then heappush
              (record job {
                elapsed_ms = r.finished - r.t0;
                error = e;
                next_run_at = r.retried + 2 ^ job.attempts * 1000;
                state = retrying;
              })
              q.queue
          else q.queue)
  unfolding settle retry fail deactivate publish_event push
  settle_queue r e job q =
      let j = record job { elapsed_ms = r.finished - r.t0; error = e } in
      let told = publish_event (job_failed j.name j.job_id j.attempts e) q in
      if_queue (ltb job.attempts job.max_retries) (retry r j q) (fail j q) refl
        (archive_queue (record j { state = failed }) (deactivate j told))

  drain_due :
      (call : F → Call F) (r : Readings) (q : JobQueue F) (job : Job F) (rest : List (Job F))
      → q.is_running ≡ true
      → q.queue ≡ job ∷ rest
      → job.next_run_at ≤ r.now
      → drain_one call r q
        ≡ run_job r (call job.fn) (begin_job job) (activate (begin_job job) rest q)
  unfolding drain_one
  drain_due call r q job rest on now due =
      let ready : ltb r.now job.next_run_at ≡ false = ground arith in
      simp (on, drain_one, now, ready) refl

  run_job_raises :
      (r : Readings) (called : Call F) (job : Job F) (q : JobQueue F) (e : String)
      → called.error ≡ some e
      → run_job r called job q ≡ settle r e job (submit_all called.submitted q)
  unfolding run_job
  run_job_raises r called job q e raised = simp (raised, run_job) refl

  -- The job that is put back after a call of it has raised.
  abbrev pub after_failure : Readings → String → Job F → Job F
  after_failure r e job = record job {
    attempts = job.attempts + 1;
    elapsed_ms = r.finished - r.t0;
    error = e;
    next_run_at = r.retried + 2 ^ (job.attempts + 1) * 1000;
    state = retrying;
  }

  -- When the most urgent job of a running queue is due and raises, it is put back where its attempts,
  -- this one included, are below `max_retries`, to run 2 ^ attempts seconds later; otherwise it leaves
  -- the queue. The queue is then that of the jobs behind it and of those that it submitted.
  pub drain_one_raises :
      (call : F → Call F) (r : Readings) (q : JobQueue F) (job : Job F) (rest : List (Job F))
      (e : String)
      → q.is_running ≡ true
      → q.queue ≡ job ∷ rest
      → job.next_run_at ≤ r.now
      → (call job.fn).error ≡ some e
      → let others = (submit_all (call job.fn).submitted (activate (begin_job job) rest q)).queue in
        (drain_one call r q).queue ≡ (
          if ltb (job.attempts + 1) job.max_retries
          then heappush (after_failure r e job) others
          else others)
  unfolding drain_one run_job settle retry fail deactivate publish_event push begin_job
  drain_one_raises call r q job rest e on now due raised =
      let begun = activate (begin_job job) rest q in
      ap (λ (z : JobQueue F). z.queue)
        (drain_due call r q job rest on now due
          ∙ run_job_raises r (call job.fn) (begin_job job) begun e raised)
      ∙ settle_queue r e (begin_job job) (submit_all (call job.fn).submitted begun)

  erase_active : (id : String) (job : Job F) → erase id (insert id job []) ≡ []
  unfolding erase insert
  erase_active id job = rw (==-refl id) refl

  run_job_active :
      (r : Readings) (called : Call F) (job : Job F) (q : JobQueue F)
      → q.active ≡ insert job.job_id job []
      → (run_job r called job q).active ≡ []
  unfolding run_job complete settle retry fail deactivate publish_event push
  run_job_active r called job q one =
      let same = submit_all_active called.submitted q ∙ one in
      let gone =
        ap (λ (l : List (String × Job F)). erase job.job_id l) same ∙ erase_active job.job_id job in
      elim (Option-cases called.error) [
        | inl ended ↦ rw (ended, run_job) (archive_active _ _ ∙ gone)
        | inr (e, raised) ↦
            rw (raised, run_job)
              (if_ind (λ (z : JobQueue F). z.active ≡ []) (ltb job.attempts job.max_retries)
                (λ _. gone) (λ _. archive_active _ _ ∙ gone))
      ]

  drain_from_active :
      (call : F → Call F) (r : Readings) (q : JobQueue F) (jobs : List (Job F))
      → q.active ≡ []
      → (elim jobs as (λ _. JobQueue F) [
        | [] ↦ q
        | job ∷ rest ↦
            if ltb r.now job.next_run_at
            then q
            else run_job r (call job.fn) (begin_job job) (activate (begin_job job) rest q)
      ]).active
        ≡ []
  unfolding activate publish_event begin_job
  drain_from_active call r q [] idle = idle
  drain_from_active call r q (job ∷ rest) idle =
      if_ind (λ (z : JobQueue F). z.active ≡ []) (ltb r.now job.next_run_at) (λ _. idle)
        (λ _.
          run_job_active r (call job.fn) (begin_job job) (activate (begin_job job) rest q)
            (ap (λ (l : List (String × Job F)). insert job.job_id (begin_job job) l) idle))

  -- When no job is active before a drain, none is after it: a job that is run is taken off again, however
  -- it ends.
  drain_one_active :
      (call : F → Call F) (r : Readings) (q : JobQueue F)
      → q.active ≡ []
      → (drain_one call r q).active ≡ []
  unfolding drain_one activate publish_event begin_job
  drain_one_active call r q idle =
      if_ind (λ (z : JobQueue F). z.active ≡ []) q.is_running
        (λ _. drain_from_active call r q q.queue idle) (λ _. idle)
