-- ===== src/Services/HealthMonitor/Invariant.antt =====
-- What the checks of services/health_monitor.py keep of the health of every service.
use mathlib.Core.Path.{subst}
use aura_aioscpu.Prelude.{
  ltb, Option-cases, if_ind, string_eq, nat_eq, lookup, AllValues, AllValues-insert, ◌≤◌, String,
  ◌≡◌, refl, sym, inl, inr, Bool, some, List, [], ◌∷◌,
}
use aura_aioscpu.Services.Manager.{ServiceState, ServiceRecord, ServiceManager, is_running}
use aura_aioscpu.Services.HealthMonitor.{
  ServiceHealth, record_failure, HealthMonitor, publish_event, health_of, set_health,
  handle_failure, Sweep, check_failing, check_one, sweep, start_sweep, finish_check, check_registry,
}
use aura_aioscpu.Services.HealthMonitor.Breaker.{
  IsTracking, new_health-IsTracking, record_healthy-IsTracking, record_failure-IsTracking,
}

-- The healths that a monitor keeps.
abbrev pub IsMonitoring : HealthMonitor → Type 0
IsMonitoring w = AllValues (IsTracking w.max_failures) w.health

health_of-IsTracking :
    (name : String) (w : HealthMonitor)
    → 1 ≤ w.max_failures
    → IsMonitoring w
    → IsTracking w.max_failures (health_of name w)
unfolding health_of
health_of-IsTracking name w pos h = elim (Option-cases (lookup name w.health)) [
  | inl new ↦ rw (new, health_of) (new_health-IsTracking w.max_failures pos)
  | inr (old, found) ↦ rw (found, health_of) (h.at name old found)
]

handle_failure-IsMonitoring :
    (name : String) (w : HealthMonitor) → IsMonitoring w → IsMonitoring (handle_failure name w)
unfolding handle_failure publish_event
handle_failure-IsMonitoring name w h = if_ind IsMonitoring w.has_job_queue (λ _. h) (λ _. h)

module _ (name : String) (s : Sweep) (h : IsMonitoring s.monitor) where
  set_health-IsMonitoring :
      (health : ServiceHealth)
      → IsTracking s.monitor.max_failures health
      → IsMonitoring (set_health name health s.monitor)
  unfolding set_health
  set_health-IsMonitoring health t = AllValues-insert name health s.monitor.health t h

  check_failing-IsMonitoring :
      (health : ServiceHealth) (just : Bool)
      → IsTracking s.monitor.max_failures health
      → IsMonitoring (check_failing name health just s).monitor
  unfolding check_failing
  check_failing-IsMonitoring health just t =
      let kept = set_health-IsMonitoring health t in
      if_ind (λ (z : Sweep). IsMonitoring z.monitor) just
        (λ _. handle_failure-IsMonitoring name (set_health name health s.monitor) kept)
        (λ _.
          if_ind (λ (z : Sweep). IsMonitoring z.monitor) (ltb 0 health.consecutive_failures)
            (λ _. kept) (λ _. kept))

  check_one-IsMonitoring :
      (state : ServiceState)
      → 1 ≤ s.monitor.max_failures
      → IsMonitoring (check_one name state s).monitor
  unfolding check_one
  check_one-IsMonitoring state pos =
      let t = health_of-IsTracking name s.monitor pos h in
      let seen = record (health_of name s.monitor) { last_state = some state } in
      let t' : IsTracking s.monitor.max_failures seen = record {
        tracks = t.tracks;
        within = t.within;
        among = t.among;
      } in
      if_ind (λ (z : Sweep). IsMonitoring z.monitor) (is_running state)
        (λ _.
          set_health-IsMonitoring _ (record_healthy-IsTracking s.monitor.max_failures seen pos t'))
        (λ _.
          check_failing-IsMonitoring _ _ (record_failure-IsTracking s.monitor.max_failures seen t'))

check_one_max :
    (name : String) (state : ServiceState) (s : Sweep)
    → (check_one name state s).monitor.max_failures ≡ s.monitor.max_failures
unfolding check_one check_failing handle_failure set_health publish_event
check_one_max name state s =
    let P : Sweep → Type 0 = λ z. z.monitor.max_failures ≡ s.monitor.max_failures in
    if_ind P (is_running state) (λ _. refl)
      (λ _.
        if_ind P (record_failure s.monitor.max_failures _).1
          (λ _.
            if_ind (λ (z : HealthMonitor). z.max_failures ≡ s.monitor.max_failures)
              s.monitor.has_job_queue (λ _. refl) (λ _. refl))
          (λ _. if_ind P (ltb 0 _) (λ _. refl) (λ _. refl)))

sweep-IsMonitoring :
    (registry : List (String × ServiceRecord)) (s : Sweep)
    → 1 ≤ s.monitor.max_failures
    → IsMonitoring s.monitor
    → IsMonitoring (sweep registry s).monitor
unfolding sweep
sweep-IsMonitoring [] s pos h = h
sweep-IsMonitoring ((name, r) ∷ registry) s pos h =
    sweep-IsMonitoring registry (check_one name r.state s)
      (subst (λ n. 1 ≤ n) (sym (check_one_max name r.state s)) pos)
      (check_one-IsMonitoring name s h r.state pos)

-- A check keeps, of every service, that its circuit says whether the failures in a row have reached the
-- maximum, which is at least one, and that the counts bound each other.
check_registry-IsMonitoring :
    (m : ServiceManager) (w : HealthMonitor)
    → 1 ≤ w.max_failures
    → IsMonitoring w
    → IsMonitoring (check_registry m w).0
unfolding check_registry finish_check start_sweep publish_event
check_registry-IsMonitoring m w pos h = sweep-IsMonitoring m.registry (start_sweep w) pos h
