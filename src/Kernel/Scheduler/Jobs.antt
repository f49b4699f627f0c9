-- ===== src/Kernel/Scheduler/Jobs.antt =====
-- The periodic jobs of kernel/scheduler.py: a tick ends, and each due job is run once in it.
use aura_aioscpu.Prelude.{
  leb, if◌then◌else◌, Bool-cases, if_ind, string_eq, nat_eq, ◌==◌, length, All, All-map, ok, ℕ,
  zero, suc, ◌+◌, ◌≤◌, ◌<◌, ◌≡◌, refl, ap, ◌∙◌, inl, inr, Bool, false, some, List, [], ◌∷◌, arith,
}
use aura_aioscpu.Prelude.Heapq.{
  heappush, IsSorted, All-heappush, heappush-IsSorted, length-heappush,
}
use aura_aioscpu.Kernel.Scheduler.{
  JobEntry, task_order, job_less, job_order, Scheduler, clashes, push_job, counted, run_task,
  reschedule, run_jobs, end_tick, tick,
}

module _ {F : Type 0} where
  -- The number of jobs that are due.
  unfoldable pub due : ℕ → List (JobEntry F) → ℕ
  due now [] = 0
  due now (e ∷ q) = let rest = due now q in if leb e.next_run now then suc rest else rest

  -- The number of due jobs that do not raise.
  unfoldable pub due_counted : (F → Bool) → ℕ → List (JobEntry F) → ℕ
  due_counted raises now [] = 0
  due_counted raises now (e ∷ q) =
      let rest = due_counted raises now q in
      if leb e.next_run now then counted raises e.job + rest else rest

  due-length : (now : ℕ) (q : List (JobEntry F)) → due now q ≤ length q
  unfolding due
  due-length now [] = omega arith
  due-length now (e ∷ q) = ground (arith, due-length now q)

  due-heappush :
      (now : ℕ) (e : JobEntry F) (q : List (JobEntry F))
      → now < e.next_run
      → due now (heappush e q) ≡ due now q
  unfolding due heappush
  due-heappush now e [] later = ground arith
  due-heappush now e (f ∷ q) later = ground (arith, due-heappush now e q later)

  due_counted-heappush :
      (raises : F → Bool) (now : ℕ) (e : JobEntry F) (q : List (JobEntry F))
      → now < e.next_run
      → due_counted raises now (heappush e q) ≡ due_counted raises now q
  unfolding due_counted heappush
  due_counted-heappush raises now e [] later = ground arith
  due_counted-heappush raises now e (f ∷ q) later =
      ground (arith, due_counted-heappush raises now e q later)

  reschedule_later :
      (now : ℕ) (e : JobEntry F) → 1 ≤ e.interval_ms → now < (reschedule now e).next_run
  unfolding reschedule
  reschedule_later now e positive = omega (arith, positive)

  reschedule_positive :
      (now : ℕ) (e : JobEntry F) → 1 ≤ e.interval_ms → 1 ≤ (reschedule now e).interval_ms
  unfolding reschedule
  reschedule_positive now e positive = positive

  -- No job is due behind one that is not.
  later-All :
      (now : ℕ) (e : JobEntry F) (q : List (JobEntry F))
      → now < e.next_run
      → All (λ f. job_less f e ≡ false) q
      → All (λ f. now < f.next_run) q
  unfolding job_less
  later-All now e q later h = All-map (λ f behind. ground arith) q h

  due_counted_none :
      (raises : F → Bool) (now : ℕ) (q : List (JobEntry F))
      → All (λ f. now < f.next_run) q
      → due_counted raises now q ≡ 0
  unfolding due_counted
  due_counted_none raises now [] h = refl
  due_counted_none raises now (e ∷ q) h = ground (arith, due_counted_none raises now q h.1, h.0)

  -- The interval is none of those of the jobs.
  abbrev pub IsOther : JobEntry F → JobEntry F → Type 0
  IsOther e f = (f.interval_ms == e.interval_ms) ≡ false

  -- No two jobs have the same interval.
  abbrev pub IsDistinct : List (JobEntry F) → Type 0
  IsDistinct [] = Unit
  IsDistinct (e ∷ q) = All (IsOther e) q × IsDistinct q

  reschedule-IsOther :
      (now : ℕ) (e : JobEntry F) (q : List (JobEntry F))
      → All (IsOther e) q
      → All (IsOther (reschedule now e)) q
  unfolding reschedule
  reschedule-IsOther now e q others = others

  IsDistinct-heappush :
      (e : JobEntry F) (q : List (JobEntry F))
      → All (IsOther e) q
      → IsDistinct q
      → IsDistinct (heappush e q)
  unfolding heappush
  IsDistinct-heappush e [] others h = (tt, tt)
  IsDistinct-heappush e (f ∷ q) others h =
      let back : IsOther f e = ground (arith, others.0) in
      if_ind IsDistinct (job_less e f) (λ _. (others, h))
        (λ _. (All-heappush (IsOther f) e q back h.0, IsDistinct-heappush e q others.1 h.1))

  clashes_other :
      (same : F → F → Bool) (now : ℕ) (e : JobEntry F) (q : List (JobEntry F))
      → All (IsOther e) q
      → clashes same (reschedule now e) q ≡ false
  unfolding clashes reschedule
  clashes_other same now e [] others = refl
  clashes_other same now e (f ∷ q) others =
      ground (arith, others.0, clashes_other same now e q others.1)

  push_job_other :
      (same : F → F → Bool) (now : ℕ) (e : JobEntry F) (q : List (JobEntry F))
      → All (IsOther e) q
      → push_job same (reschedule now e) q ≡ ok (heappush (reschedule now e) q)
  unfolding push_job
  push_job_other same now e q others = rw (clashes_other same now e q others) refl

  -- What the loop over the jobs does: it ends, counts each due job that does not raise once, and
  -- leaves as many jobs, none of them due.
  run_jobs_ends :
      (same : F → F → Bool) (raises : F → Bool) (now fuel ran : ℕ) (q : List (JobEntry F))
      → due now q < fuel
      → IsSorted q
      → All (λ e. 1 ≤ e.interval_ms) q
      → IsDistinct q
      → (q' : List (JobEntry F)) × (run_jobs same raises now fuel ran q
          ≡ some (ok (ran + due_counted raises now q, q')))
        × (length q' ≡ length q)
        × All (λ e. now < e.next_run) q'
  unfolding run_jobs due due_counted
  run_jobs_ends same raises now zero ran q enough sorted positive distinct = absurd (omega arith)
  run_jobs_ends same raises now (suc fuel) ran [] enough sorted positive distinct =
      ([], ground arith, refl, tt)
  run_jobs_ends same raises now (suc fuel) ran (e ∷ q) enough sorted positive distinct =
      elim (Bool-cases (leb e.next_run now)) [
        | inr later ↦
            let first : now < e.next_run = ground (arith, later) in
            let rest = later-All now e q first sorted.0 in
            let none_counted = due_counted_none raises now q rest in
            (
              e ∷ q,
              rw (later, run_jobs) (ap (λ n. some (ok (n, e ∷ q))) (omega arith)),
              refl,
              (first, rest),
            )
        | inl ready ↦
            let e' = reschedule now e in
            let moved : now < e'.next_run = reschedule_later now e positive.0 in
            let (q', ends, same_length, none_due) =
              run_jobs_ends same raises now fuel (ran + counted raises e.job) (heappush e' q)
                (ground (arith, due-heappush now e' q moved)) (heappush-IsSorted e' q sorted.1)
                (All-heappush (λ f. 1 ≤ f.interval_ms) e' q (reschedule_positive now e positive.0)
                  positive.1)
                (IsDistinct-heappush e' q (reschedule-IsOther now e q distinct.0) distinct.1) in
            let counted_rest = due_counted-heappush raises now e' q moved in
            (
              q',
              rw (ready, run_jobs, push_job_other same now e q distinct.0)
                  (ends ∙ ap (λ n. some (ok (n, q'))) (omega (arith, counted_rest))),
              same_length ∙ length-heappush e' q,
              none_due,
            )
      ]

  -- A tick ends and does not raise, when the jobs stand in their order, have intervals of at least one,
  -- and no two of them have the same interval: it returns the number of calls that did not raise, of the
  -- first task and of each due job, leaves as many jobs, and none of them is due.
  pub tick_ends :
      (same : F → F → Bool) (raises : F → Bool) (now : ℕ) (s : Scheduler F)
      → IsSorted s.job_queue
      → All (λ e. 1 ≤ e.interval_ms) s.job_queue
      → IsDistinct s.job_queue
      → (after : Scheduler F) × (tick same raises now s
          ≡ some
              (ok ((run_task raises s.task_queue).0 + due_counted raises now s.job_queue, after)))
        × (after.task_queue ≡ (run_task raises s.task_queue).1)
        × (length after.job_queue ≡ length s.job_queue)
        × All (λ e. now < e.next_run) after.job_queue
  unfolding tick end_tick
  tick_ends same raises now s sorted positive distinct =
      let (ran, tasks) = run_task raises s.task_queue in
      let (jobs, ends, same_length, none_due) =
        run_jobs_ends same raises now (length s.job_queue + 1) ran s.job_queue
          (omega (arith, due-length now s.job_queue)) sorted positive distinct in
      (
        record s { task_queue = tasks; job_queue = jobs },
        ap (end_tick tasks s) ends,
        refl,
        same_length,
        none_due,
      )
