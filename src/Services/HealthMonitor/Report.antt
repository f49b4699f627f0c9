-- ===== src/Services/HealthMonitor/Report.antt =====
-- The check of all services in services/health_monitor.py: its report and its repairs.

use mathlib.Core.List.{append_assoc, append-nil}
use aura_aioscpu.Prelude.{
  ltb, if◌then◌else◌, Bool-cases, if_ind, string_eq, nat_eq, length, length-append, ℕ, suc, ◌+◌,
  String, ◌≡◌, refl, sym, ◌∙◌, inl, inr, Bool, true, false, List, [], ◌∷◌, ◌++◌, arith,
}
use aura_aioscpu.Services.Manager.{ServiceState, ServiceRecord, ServiceManager, is_running}
use aura_aioscpu.Services.HealthMonitor.{
  ServiceHealth, record_healthy, record_failure, HealthMonitor, publish_event, set_health,
  handle_failure, Sweep, check_failing, check_one, sweep, report_of, start_sweep, finish_check,
  check_registry,
}

-- The names in the three lists.
abbrev reported : Sweep → ℕ
reported s = length s.healthy_names + length s.degraded_names + length s.failed_names

reported-check_one :
    (name : String) (state : ServiceState) (s : Sweep)
    → reported (check_one name state s) ≡ suc (reported s)
unfolding check_one check_failing record_failure record_healthy
reported-check_one name state s = ground (
  arith,
  length-append s.healthy_names (name ∷ []),
  length-append s.degraded_names (name ∷ []),
  length-append s.failed_names (name ∷ []),
)

reported-sweep :
    (registry : List (String × ServiceRecord)) (s : Sweep)
    → reported (sweep registry s) ≡ length registry + reported s
unfolding sweep
reported-sweep [] s = omega arith
reported-sweep ((name, r) ∷ registry) s =
    omega
      (arith, reported-sweep registry (check_one name r.state s), reported-check_one name r.state s)

-- A report counts each registered service once: as healthy, degraded or failed.
check_registry_counts :
    (m : ServiceManager) (w : HealthMonitor)
    → let report = (check_registry m w).1 in
      report.healthy + report.degraded + report.failed ≡ length m.registry
unfolding check_registry finish_check report_of start_sweep
check_registry_counts m w = omega (arith, reported-sweep m.registry (start_sweep w))

-- The repairs after a sweep are the ones before it and the new names of the failed list.
abbrev Keeps : HealthMonitor → Sweep → Type 0
Keeps w s =
    (s.monitor.has_job_queue ≡ w.has_job_queue)
    × (s.monitor.max_failures ≡ w.max_failures)
    × (s.monitor.repairs ≡ (if w.has_job_queue then w.repairs ++ s.failed_names else w.repairs))

queue_repair :
    (w : HealthMonitor) (name : String) (s : Sweep) (v : HealthMonitor)
    → Keeps w s
    → v.has_job_queue ≡ s.monitor.has_job_queue
    → v.max_failures ≡ s.monitor.max_failures
    → v.repairs ≡ s.monitor.repairs
    → Keeps w
        (record s { monitor = handle_failure name v; failed_names = s.failed_names ++ name ∷ [] })
unfolding handle_failure publish_event
queue_repair w name s v (queue, max, repairs) eq em er =
    let same : v.has_job_queue ≡ w.has_job_queue = eq ∙ queue in
    if_ind
      (λ (z : HealthMonitor).
        Keeps w (record s { monitor = z; failed_names = s.failed_names ++ name ∷ [] }))
      v.has_job_queue
      (λ on.
        let here : w.has_job_queue ≡ true = sym same ∙ on in
        let old : s.monitor.repairs ≡ w.repairs ++ s.failed_names = rw here at repairs in
        (same, em ∙ max, rw (here, er, old) (append_assoc w.repairs s.failed_names (name ∷ []))))
      (λ off.
        let here : w.has_job_queue ≡ false = sym same ∙ off in
        (same, em ∙ max, rw here (er ∙ rw here at repairs)))

check_failing-Keeps :
    (w : HealthMonitor) (name : String) (h : ServiceHealth) (just : Bool) (s : Sweep)
    → Keeps w s
    → Keeps w (check_failing name h just s)
unfolding check_failing set_health
check_failing-Keeps w name h just s k =
    if_ind (Keeps w) just
      (λ _. queue_repair w name s (set_health name h s.monitor) k refl refl refl)
      (λ _. if_ind (Keeps w) (ltb 0 h.consecutive_failures) (λ _. k) (λ _. k))

check_one-Keeps :
    (w : HealthMonitor) (name : String) (state : ServiceState) (s : Sweep)
    → Keeps w s
    → Keeps w (check_one name state s)
unfolding check_one set_health
check_one-Keeps w name state s k =
    if_ind (Keeps w) (is_running state) (λ _. k) (λ _. check_failing-Keeps w name _ _ s k)

sweep-Keeps :
    (w : HealthMonitor) (registry : List (String × ServiceRecord)) (s : Sweep)
    → Keeps w s
    → Keeps w (sweep registry s)
unfolding sweep
sweep-Keeps w [] s h = h
sweep-Keeps w ((name, r) ∷ registry) s h =
    sweep-Keeps w registry (check_one name r.state s) (check_one-Keeps w name r.state s h)

-- A check submits a repair job for each service of its failed list, in order, and no other; without a
-- job queue none.
pub check_registry_repairs :
    (m : ServiceManager) (w : HealthMonitor)
    → let (after, report) = check_registry m w in
      after.repairs ≡ (if w.has_job_queue then w.repairs ++ report.failed_list else w.repairs)
unfolding check_registry finish_check report_of start_sweep publish_event
check_registry_repairs m w =
    let (_, _, repairs) = sweep-Keeps w m.registry (start_sweep w) (
      refl,
      refl,
      elim (Bool-cases w.has_job_queue) [
        | inl there ↦ rw (there, append-nil w.repairs) refl
        | inr off ↦ rw off refl
      ],
    ) in
    repairs
