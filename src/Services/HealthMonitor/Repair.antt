-- ===== src/Services/HealthMonitor/Repair.antt =====
-- The repair job of services/health_monitor.py.
use aura_aioscpu.Prelude.{
  Bool-cases, Option-cases, string_eq, nat_eq, lookup, lookup-insert_self, Outcome-cases, String,
  ◌≡◌, refl, ap, ◌∙◌, inl, inr, Bool, true, false, Option, none, some,
}
use aura_aioscpu.Services.Manager.{
  ServiceState, registered, starting, running, stopping, stopped, ServiceRecord, ServiceManager,
  store, publish, end_thread, thread_ends, join, set_state, is_running, stop, status,
}
use aura_aioscpu.Services.HealthMonitor.{HealthMonitor, repair_service}

-- A repair never starts the service and never makes the circuit half open: the monitor stays as it is,
-- and of the manager it makes what `stop` makes, since `ServiceManager.stop` returns None.
pub repair_service_lem :
    (joined : Bool) (name : String) (m : ServiceManager) (w : HealthMonitor)
    → repair_service joined name m w ≡ (w, (stop joined name m).1)
unfolding repair_service
repair_service_lem joined name m w = elim (Outcome-cases (stop joined name m).0) [
  | inl (u, e) ↦ rw (e, repair_service) refl
  | inr (u, e) ↦ rw (e, repair_service) refl
]

set_state_found :
    (s : ServiceState) (name : String) (m : ServiceManager) (r : ServiceRecord)
    → lookup name m.registry ≡ some r
    → lookup name (set_state s name m).registry ≡ some (record r { state = s })
unfolding set_state store
set_state_found s name m r found =
    rw (found, set_state) (lookup-insert_self name (record r { state = s }) m.registry)

join_found :
    (joined : Bool) (name : String) (m : ServiceManager) (r : ServiceRecord)
    → lookup name m.registry ≡ some r
    → (r' : ServiceRecord) × (lookup name (join joined name m).registry ≡ some r')
unfolding join thread_ends publish store
join_found false name m r found = (r, found)
join_found true name m r found = elim (Option-cases (end_thread 0 r)) [
  | inl idle ↦ (r, rw (found, thread_ends, idle) found)
  | inr (r', ended) ↦ (r', rw (found, thread_ends, ended) (lookup-insert_self name r' m.registry))
]

-- What a repair makes of the state of a service.
abbrev pub repaired : Option ServiceState → Option ServiceState
repaired none = none
repaired (some running) = some stopped
repaired (some s) = some s

repaired_off : (s : ServiceState) → is_running s ≡ false → some s ≡ repaired (some s)
repaired_off running off = cc
repaired_off registered off = refl
repaired_off starting off = refl
repaired_off stopping off = refl
repaired_off stopped off = refl

repaired_up : (s : ServiceState) → is_running s ≡ true → some stopped ≡ repaired (some s)
repaired_up running up = refl
repaired_up _ up = cc

stop_status :
    (joined : Bool) (name : String) (m : ServiceManager)
    → status name (stop joined name m).1 ≡ repaired (status name m)
unfolding stop status publish
stop_status joined name m = elim (Option-cases (lookup name m.registry)) [
  | inl missing ↦ rw (missing, stop) (rw (missing) refl)
  | inr (r, found) ↦ elim (Bool-cases (is_running r.state)) [
    | inr off ↦ rw (found, stop, off) (rw (found) (repaired_off r.state off))
    | inl up ↦
        let (r', joined_found) =
          join_found joined name (set_state stopping name m) (record r { state = stopping })
            (set_state_found stopping name m r found) in
        rw (found, stop, up)
          (rw
            (set_state_found stopped name (join joined name (set_state stopping name m)) r'
              joined_found)
            (repaired_up r.state up))
  ]
]

-- A repair starts nothing, although it is meant to restart the service: a service that runs is stopped
-- after it, one in any other state is as it was, and the circuit and all else of the monitor stay as they
-- are. The service's thread ends or does not end while the repair waits for it, and nothing else happens.
pub status-repair_service :
    (joined : Bool) (name : String) (m : ServiceManager) (w : HealthMonitor)
    → let (w', m') = repair_service joined name m w in
      (w' ≡ w) × (status name m' ≡ repaired (status name m))
status-repair_service joined name m w =
    let same = repair_service_lem joined name m w in
    (
      ap (λ (z : HealthMonitor × ServiceManager). z.0) same,
      ap (λ (z : HealthMonitor × ServiceManager). status name z.1) same ∙ stop_status joined name m,
    )
