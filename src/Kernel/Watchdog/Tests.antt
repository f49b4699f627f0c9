-- ===== src/Kernel/Watchdog/Tests.antt =====
-- Runs of kernel/watchdog.py's watchdog, over one service that has stopped and one that runs.
use aura_aioscpu.Prelude.{
  string_eq, nat_eq, lookup, ℕ, String, ◌≡◌, refl, true, false, some, List, [], ◌∷◌,
}
use aura_aioscpu.Services.Manager.{
  ServiceState, starting, running, stopped, ThreadPhase, alive, ServiceRecord, ServiceManager,
  status,
}
use aura_aioscpu.Kernel.Watchdog.{new_health, is_restartable, KernelWatchdog, check_cycle}
use aura_aioscpu.Kernel.Watchdog.Cycles.{check_cycle_restarts}

abbrev service : String → ServiceState → List ThreadPhase → ServiceRecord
service name state threads = record {
  name = name;
  unit = ("name", name) ∷ ("entrypoint", "run.py") ∷ [];
  entrypoint = "run.py";
  state = state;
  threads = threads;
}

abbrev manager : ServiceManager
manager = record {
  registry = ("net", service "net" stopped []) ∷ ("log", service "log" running (alive ∷ [])) ∷ [];
  published = [];
}

abbrev watchdog : KernelWatchdog
watchdog = record {
  max_failures = 3;
  auto_restart = true;
  has_build_service = false;
  integrity_every = 10;
  check_count = 0;
  health = ("net", new_health 3) ∷ ("log", new_health 3) ∷ [];
  published = [];
  integrity_checks = 0;
}

abbrev clock : String → ℕ
clock name = 1000

check_cycle_restarts_example :
    status "net" (check_cycle clock (watchdog, manager)).1 ≡ some starting
unfolding lookup is_restartable status
check_cycle_restarts_example =
    check_cycle_restarts clock "net" (new_health 3) watchdog manager refl refl refl refl
