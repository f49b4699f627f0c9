-- ===== src/Services/HealthMonitor.antt =====
-- The health monitor of services/health_monitor.py: the circuit breaker of each service, the check of
-- all services, and the repair job. Left out are the loop that calls the check and the time stamps,
-- which no operation reads. Publishing does not raise: `_publish` catches.
pub mod Breaker
pub mod Report
pub mod Invariant
pub mod Repair
mod Tests
use aura_aioscpu.Prelude.{
  ltb, leb, if◌then◌else◌, nat_eq, string_eq, length, lookup, insert, ok, raise, ℕ, ◌+◌, String,
  Bool, true, false, ◌&&◌, Option, none, some, List, [], ◌∷◌, ◌++◌,
}
use aura_aioscpu.Services.Manager.{
  ServiceState, ServiceRecord, ServiceManager, start, is_running, stop,
}

pub data Circuit : Type 0 where
  closed opened half_open : Circuit

-- `last_state`: `none` stands for "unknown".
pub record ServiceHealth : Type 0 where
  pub circuit : Circuit
  pub consecutive_failures : ℕ
  pub total_checks : ℕ
  pub total_failures : ℕ
  pub last_state : Option ServiceState

abbrev pub new_health : ServiceHealth
new_health = record {
  circuit = closed;
  consecutive_failures = 0;
  total_checks = 0;
  total_failures = 0;
  last_state = none;
}

unfoldable pub record_healthy : ServiceHealth → ServiceHealth
record_healthy h = record h {
  consecutive_failures = 0;
  circuit = closed;
  total_checks = h.total_checks + 1;
}

abbrev pub is_closed : Circuit → Bool
is_closed closed = true
is_closed _ = false

unfoldable pub opens : ℕ → ServiceHealth → Bool
opens max_failures h = is_closed h.circuit && leb max_failures (h.consecutive_failures + 1)

-- The health after a failure, and whether the circuit has just opened.
unfoldable pub record_failure : ℕ → ServiceHealth → ServiceHealth × Bool
record_failure max_failures h = (
  record h {
    consecutive_failures = h.consecutive_failures + 1;
    total_failures = h.total_failures + 1;
    total_checks = h.total_checks + 1;
    circuit = if opens max_failures h then opened else h.circuit;
  },
  opens max_failures h,
)

-- `_last_report`, without the time and the dictionary of all healths.
pub record HealthReport : Type 0 where
  pub healthy : ℕ
  pub degraded : ℕ
  pub failed : ℕ
  pub healthy_list : List String
  pub degraded_list : List String
  pub failed_list : List String

pub data MonitorEvent : Type 0 where
  integrity_alert : (service : String) → (failures : ℕ) → MonitorEvent
  health_report : HealthReport → MonitorEvent
  service_restarting : (name : String) → MonitorEvent

-- `repairs` are the services of the repair jobs that are submitted to the job queue.
pub record HealthMonitor : Type 0 where
  pub has_job_queue : Bool
  pub max_failures : ℕ
  pub health : List (String × ServiceHealth)
  pub last_report : Option HealthReport
  pub repairs : List String
  pub published : List MonitorEvent

unfoldable pub publish_event : MonitorEvent → HealthMonitor → HealthMonitor
publish_event e w = record w { published = w.published ++ e ∷ [] }

-- `self._health[name]`, made where it is missing.
unfoldable pub health_of : String → HealthMonitor → ServiceHealth
health_of name w = elim (lookup name w.health) [ none ↦ new_health | some h ↦ h ]

unfoldable pub set_health : String → ServiceHealth → HealthMonitor → HealthMonitor
set_health name h w = record w { health = insert name h w.health }

unfoldable pub handle_failure : String → HealthMonitor → HealthMonitor
handle_failure name w =
    let alerted = publish_event (integrity_alert name (health_of name w).consecutive_failures) w in
    if w.has_job_queue then record alerted { repairs = alerted.repairs ++ name ∷ [] } else alerted

-- The loop variables of `_check_all`.
pub record Sweep : Type 0 where
  pub monitor : HealthMonitor
  pub healthy_names : List String
  pub degraded_names : List String
  pub failed_names : List String

unfoldable pub check_failing : String → ServiceHealth → Bool → Sweep → Sweep
check_failing name h just_opened s =
    let w = set_health name h s.monitor in
    if just_opened
    then record s { monitor = handle_failure name w; failed_names = s.failed_names ++ name ∷ [] }
    else (if ltb 0 h.consecutive_failures
        then record s { monitor = w; degraded_names = s.degraded_names ++ name ∷ [] }
        else record s { monitor = w; healthy_names = s.healthy_names ++ name ∷ [] })

unfoldable pub check_one : String → ServiceState → Sweep → Sweep
check_one name state s =
    let h = record (health_of name s.monitor) { last_state = some state } in
    let failure = record_failure s.monitor.max_failures h in
    if is_running state
    then record s {
      monitor = set_health name (record_healthy h) s.monitor;
      healthy_names = s.healthy_names ++ name ∷ [];
    }
    else check_failing name failure.0 failure.1 s

unfoldable pub sweep : List (String × ServiceRecord) → Sweep → Sweep
sweep [] s = s
sweep ((name, r) ∷ registry) s = sweep registry (check_one name r.state s)

unfoldable pub report_of : Sweep → HealthReport
report_of s = record {
  healthy = length s.healthy_names;
  degraded = length s.degraded_names;
  failed = length s.failed_names;
  healthy_list = s.healthy_names;
  degraded_list = s.degraded_names;
  failed_list = s.failed_names;
}

unfoldable pub start_sweep : HealthMonitor → Sweep
start_sweep w = record { monitor = w; healthy_names = []; degraded_names = []; failed_names = [] }

unfoldable pub finish_check : Sweep → HealthMonitor × HealthReport
finish_check s =
    let report = report_of s in
    (publish_event (health_report report) (record s.monitor { last_report = some report }), report)

-- `_check_all` with a service manager.
unfoldable pub check_registry : ServiceManager → HealthMonitor → HealthMonitor × HealthReport
check_registry m w = finish_check (sweep m.registry (start_sweep w))

-- `_check_all`: without a service manager it does nothing and returns an empty dictionary.
unfoldable pub check_all :
    Option ServiceManager → HealthMonitor → HealthMonitor × Option HealthReport
check_all none w = (w, none)
check_all (some m) w = let checked = check_registry m w in (checked.0, some checked.1)

-- The truth value of what `ServiceManager.stop` and `ServiceManager.start` return: they return None.
abbrev pub is_true : Unit {0} → Bool
is_true _ = false

unfoldable pub mark_restarted : String → HealthMonitor → HealthMonitor
mark_restarted name w =
    publish_event (service_restarting name)
      (set_health name (record (health_of name w) { circuit = half_open }) w)

-- `_repair_service` from the return of `stop`.
unfoldable pub restart_stopped :
    String → ServiceManager → HealthMonitor → HealthMonitor × ServiceManager
restart_stopped name m w = elim (start name m).0 [
  | ok started ↦ (if is_true started then mark_restarted name w else w, (start name m).1)
  | raise _ ↦ (w, (start name m).1)
]

-- `_repair_service`; the flag says whether the thread of the service ends before the join times out.
unfoldable pub repair_service :
    Bool → String → ServiceManager → HealthMonitor → HealthMonitor × ServiceManager
repair_service joined name m w = elim (stop joined name m).0 [
  | ok returned ↦
      if is_true returned
      then restart_stopped name (stop joined name m).1 w
      else (w, (stop joined name m).1)
  | raise _ ↦ (w, (stop joined name m).1)
]
