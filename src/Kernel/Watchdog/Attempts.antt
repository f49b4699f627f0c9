-- ===== src/Kernel/Watchdog/Attempts.antt =====
-- One attempt of kernel/watchdog.py to restart a service: what it does to that service and to others.
use mathlib.Core.Option
use aura_aioscpu.Prelude.{
  Bool-cases, Option-cases, nat_eq, string_eq, lookup, ok, ℕ, ◌+◌, String, ◌≡◌, refl, ap, ◌⊎◌, inl,
  inr, Bool, true, false, Option, none, some,
}
use aura_aioscpu.Services.Manager.{
  ServiceState, registered, stopped, ServiceRecord, ServiceManager, ManagerMethod, store, can_start,
  start_record, start, status,
}
use aura_aioscpu.Kernel.Watchdog.{
  ServiceHealth, is_restartable, service_restarting, KernelWatchdog, publish_event, set_health,
  is_down, restart, attempt_restart,
}

down_can_start : (s : ServiceState) → is_down (some s) ≡ true → can_start s ≡ true
down_can_start registered down = refl
down_can_start stopped down = refl
down_can_start _ down = cc

pub status_found :
    (name : String) (m : ServiceManager) (r : ServiceRecord)
    → lookup name m.registry ≡ some r
    → status name m ≡ some r.state
unfolding status
status_found name m r found = rw found refl

pub status_missing :
    (name : String) (m : ServiceManager) → lookup name m.registry ≡ none → status name m ≡ none
unfolding status
status_missing name m missing = rw missing refl

-- `start` raises only for a service that is not down.
start_down :
    (name : String) (m : ServiceManager) (r : ServiceRecord)
    → lookup name m.registry ≡ some r
    → is_down (some r.state) ≡ true
    → start name m ≡ (ok tt, store name (start_record r) m)
unfolding start
start_down name m r found down = rw (found, start, down_can_start r.state down) refl

-- What the failures of a health are.
abbrev pub failures : ServiceHealth → ℕ × Option ℕ × Bool
failures h = (h.failure_count, h.last_failure, h.disabled)

abbrev pub failures_of : String → KernelWatchdog → Option (ℕ × Option ℕ × Bool)
failures_of name w = Option.map failures (lookup name w.health)

-- An attempt on a service that is down starts it and counts the restart.
pub attempt_restart_down :
    (now : ℕ) (name : String) (w : KernelWatchdog) (m : ServiceManager) (h : ServiceHealth)
    (r : ServiceRecord)
    → lookup name w.health ≡ some h
    → is_restartable now h ≡ true
    → lookup name m.registry ≡ some r
    → is_down (some r.state) ≡ true
    → attempt_restart now name (w, m) ≡ (
      publish_event
          (service_restarting name (h.restart_count + 1))
          (set_health name (record h { restart_count = h.restart_count + 1 }) w),
      store name (start_record r) m,
    )
unfolding attempt_restart restart status
attempt_restart_down now name w m h r known ready found down =
    let started = start_down name m r found down in
    rw
      (
        known,
        attempt_restart,
        ready,
        status_found name m r found,
        down,
        restart,
        ap (λ (o : ManagerMethod). o.0) started,
        ap (λ (o : ManagerMethod). o.1) started,
      )
      refl

-- An attempt on any other service does nothing.
pub attempt_restart_up :
    (now : ℕ) (name : String) (w : KernelWatchdog) (m : ServiceManager)
    → is_down (status name m) ≡ false
    → attempt_restart now name (w, m) ≡ (w, m)
unfolding attempt_restart
attempt_restart_up now name w m up = elim (Option-cases (lookup name w.health)) [
  | inl unknown ↦ rw (unknown, attempt_restart) refl
  | inr (h, known) ↦ elim (Bool-cases (is_restartable now h)) [
    | inl ready ↦ rw (known, attempt_restart, ready, up) refl
    | inr wait ↦ rw (known, attempt_restart, wait) refl
  ]
]

-- The two ways an attempt goes: nothing happens, or the service is down and is started.
pub attempt_restart-cases :
    (now : ℕ) (name : String) (w : KernelWatchdog) (m : ServiceManager)
    → (attempt_restart now name (w, m) ≡ (w, m))
      ⊎ ((h : ServiceHealth) × (r : ServiceRecord) × (lookup name w.health ≡ some h)
          × (lookup name m.registry ≡ some r)
          × (is_restartable now h ≡ true)
          × (is_down (some r.state) ≡ true))
unfolding attempt_restart status
attempt_restart-cases now name w m = elim (Option-cases (lookup name w.health)) [
  | inl unknown ↦ inl (rw (unknown, attempt_restart) refl)
  | inr (h, known) ↦ elim (Bool-cases (is_down (status name m))) [
    | inr up ↦ inl (attempt_restart_up now name w m up)
    | inl down ↦ elim (Bool-cases (is_restartable now h)) [
      | inr wait ↦ inl (rw (known, attempt_restart, wait) refl)
      | inl ready ↦ elim (Option-cases (lookup name m.registry)) [
        | inl missing ↦
            let never : is_down none ≡ true = rw (status_missing name m missing) at down in cc
        | inr (r, found) ↦ inr (h, r, known, found, ready, rw (status_found name m r found) at down)
      ]
    ]
  ]
]
