-- ===== src/Services/HealthMonitor/Tests.antt =====
-- Runs of services/health_monitor.py's monitor, over one service that has stopped and one that runs.

use aura_aioscpu.Prelude.{
  string_eq, nat_eq, String, ◌≡◌, true, false, none, List, [], ◌∷◌, ◌++◌, arith,
}
use aura_aioscpu.Services.Manager.{
  ServiceState, running, stopped, ThreadPhase, alive, ServiceRecord, ServiceManager, status,
}
use aura_aioscpu.Services.HealthMonitor.{
  opened, new_health, HealthMonitor, check_registry, repair_service,
}
use aura_aioscpu.Services.HealthMonitor.Breaker.{
  observe_all, failures_since, failures_in, observe_all_lem,
}
use aura_aioscpu.Services.HealthMonitor.Repair.{repaired, status-repair_service}
use aura_aioscpu.Services.HealthMonitor.Report.{check_registry_repairs}

abbrev service : String → ServiceState → List ThreadPhase → ServiceRecord
service name state threads = record {
  name = name;
  unit = ("name", name) ∷ ("entrypoint", "run.py") ∷ [];
  entrypoint = "run.py";
  state = state;
  threads = threads;
}

abbrev manager : ServiceManager
manager = record {
  registry = ("net", service "net" stopped []) ∷ ("log", service "log" running (alive ∷ [])) ∷ [];
  published = [];
}

abbrev monitor : HealthMonitor
monitor = record {
  has_job_queue = true;
  max_failures = 1;
  health = [];
  last_report = none;
  repairs = [];
  published = [];
}

observe_all_lem_example :
    let after = observe_all 2 (true ∷ false ∷ false ∷ []) new_health in
    (after.circuit ≡ opened)
    × (after.consecutive_failures ≡ 2)
    × (after.total_checks ≡ 3)
    × (after.total_failures ≡ 2)
unfolding failures_since failures_in
observe_all_lem_example = observe_all_lem 2 (true ∷ false ∷ false ∷ []) (omega arith)

check_registry_repairs_example :
    (check_registry manager monitor).0.repairs
    ≡ [] ++ (check_registry manager monitor).1.failed_list
check_registry_repairs_example = check_registry_repairs manager monitor

status-repair_service_example :
    let (w, m) = repair_service true "log" manager monitor in
    (w ≡ monitor) × (status "log" m ≡ repaired (status "log" manager))
status-repair_service_example = status-repair_service true "log" manager monitor
