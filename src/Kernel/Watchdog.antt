-- ===== src/Kernel/Watchdog.antt =====
-- The watchdog of kernel/watchdog.py, over the service manager. A clock reading is in milliseconds, and
-- `clock name` is the one of the attempt to restart the service of that name. No other thread changes a
-- service between the `status` and the `start` of an attempt. Publishing does not raise. The integrity
-- check only logs: its calls are counted.
pub mod Attempts
pub mod Failures
pub mod Cycles
mod Tests
use aura_aioscpu.Prelude.{
  ltb, leb, nat_beq, if◌then◌else◌, nat_eq, string_eq, lookup, insert, has_key, ok, raise, ℕ, ◌+◌,
  ◌-◌, ◌%◌, String, Bool, true, false, not, ◌&&◌, ◌||◌, Option, none, some, List, [], ◌∷◌, ◌++◌,
}
use aura_aioscpu.Prelude.Text.{is_empty}
use aura_aioscpu.Services.Manager.{
  ServiceState, registered, starting, running, stopped, ServiceManager, start, status,
}

pub record ServiceHealth : Type 0 where
  pub max_failures : ℕ
  pub backoff_ms : ℕ
  pub failure_count : ℕ
  pub last_failure : Option ℕ
  pub restart_count : ℕ
  pub disabled : Bool

abbrev pub new_health : ℕ → ServiceHealth
new_health max_failures = record {
  max_failures = max_failures;
  backoff_ms = 5000;
  failure_count = 0;
  last_failure = none;
  restart_count = 0;
  disabled = false;
}

unfoldable pub record_failure : ℕ → ServiceHealth → ServiceHealth
record_failure now h = record h {
  failure_count = h.failure_count + 1;
  last_failure = some now;
  disabled = h.disabled || leb h.max_failures (h.failure_count + 1);
}

unfoldable pub is_restartable : ℕ → ServiceHealth → Bool
is_restartable now h =
    if h.disabled
    then false
    else elim h.last_failure [ none ↦ true | some t ↦ leb h.backoff_ms (now - t) ]

pub data WatchdogEvent : Type 0 where
  health_check : (degraded : List String) → (report : List (String × ServiceHealth)) → WatchdogEvent
  service_restarting : (name : String) → (restart_count : ℕ) → WatchdogEvent

-- `integrity_checks` counts the calls of `verify_integrity`.
pub record KernelWatchdog : Type 0 where
  pub max_failures : ℕ
  pub auto_restart : Bool
  pub has_build_service : Bool
  pub integrity_every : ℕ
  pub check_count : ℕ
  pub health : List (String × ServiceHealth)
  pub published : List WatchdogEvent
  pub integrity_checks : ℕ

unfoldable pub init : ℕ → Bool → Bool → ℕ → KernelWatchdog
init max_failures auto_restart has_build_service interval = record {
  max_failures = max_failures;
  auto_restart = auto_restart;
  has_build_service = has_build_service;
  integrity_every = if ltb interval 1 then 1 else interval;
  check_count = 0;
  health = [];
  published = [];
  integrity_checks = 0;
}

unfoldable pub publish_event : WatchdogEvent → KernelWatchdog → KernelWatchdog
publish_event e w = record w { published = w.published ++ e ∷ [] }

unfoldable pub set_health : String → ServiceHealth → KernelWatchdog → KernelWatchdog
set_health name h w = record w { health = insert name h w.health }

-- `_on_service_registered`; an event with no name has the empty one here.
unfoldable pub on_service_registered : String → KernelWatchdog → KernelWatchdog
on_service_registered name w =
    if is_empty name || has_key name w.health
    then w
    else set_health name (new_health w.max_failures) w

-- The watchdog and the manager that it watches.
abbrev pub Watched : Type 0
Watched = KernelWatchdog × ServiceManager

-- The state is not among "running", "registered" and "starting".
abbrev pub is_degraded : Option ServiceState → Bool
is_degraded (some running) = false
is_degraded (some registered) = false
is_degraded (some starting) = false
is_degraded _ = true

unfoldable pub degraded_names : ServiceManager → List (String × ServiceHealth) → List String
degraded_names m [] = []
degraded_names m ((name, h) ∷ health) =
    let rest = degraded_names m health in
    if is_degraded (status name m) && not h.disabled then name ∷ rest else rest

-- The state is "stopped" or "registered".
abbrev pub is_down : Option ServiceState → Bool
is_down (some stopped) = true
is_down (some registered) = true
is_down _ = false

-- The `try` of `_attempt_restart`, where the state is one of those.
unfoldable pub restart : ℕ → String → ServiceHealth → Watched → Watched
restart now name h (w, m) = elim (start name m).0 [
  | ok _ ↦ (
    publish_event (service_restarting name (h.restart_count + 1))
        (set_health name (record h { restart_count = h.restart_count + 1 }) w),
    (start name m).1,
  )
  | raise _ ↦ (set_health name (record_failure now h) w, (start name m).1)
]

unfoldable pub attempt_restart : ℕ → String → Watched → Watched
attempt_restart now name (w, m) = elim (lookup name w.health) [
  | none ↦ (w, m)
  | some h ↦
      if is_restartable now h && is_down (status name m) then restart now name h (w, m) else (w, m)
]

unfoldable pub attempt_all : (String → ℕ) → List String → Watched → Watched
attempt_all clock [] s = s
attempt_all clock (name ∷ names) s = attempt_all clock names (attempt_restart (clock name) name s)

-- `self._check_count % self._integrity_every == 0`, with a build service.
unfoldable pub check_integrity : KernelWatchdog → KernelWatchdog
check_integrity w =
    if w.has_build_service && nat_beq (w.check_count % w.integrity_every) 0
    then record w { integrity_checks = w.integrity_checks + 1 }
    else w

unfoldable pub check_cycle : (String → ℕ) → Watched → Watched
check_cycle clock (w, m) =
    let degraded = degraded_names m w.health in
    let counted = record w { check_count = w.check_count + 1 } in
    let told = publish_event (health_check degraded w.health) counted in
    let restarted = if w.auto_restart then attempt_all clock degraded (told, m) else (told, m) in
    (check_integrity restarted.0, restarted.1)
