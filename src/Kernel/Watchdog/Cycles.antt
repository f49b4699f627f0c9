-- ===== src/Kernel/Watchdog/Cycles.antt =====
-- What the checks of kernel/watchdog.py make of the services, and when they check the integrity.
use aura_aioscpu.Prelude.{
  if◌then◌else◌, Bool-cases, Option-cases, if_ind, string_eq, nat_eq, ◌==◌, ==_iff, ==-refl, has,
  lookup, lookup-insert, ℕ, ◌+◌, String, ◌≡◌, refl, sym, ap, ◌∙◌, inl, inr, true, false, none, some,
  List, [], ◌∷◌, arith,
}
use aura_aioscpu.Services.Manager.{
  starting, stopped, ServiceRecord, ServiceManager, store, start_record, status,
}
use aura_aioscpu.Kernel.Watchdog.{
  ServiceHealth, is_restartable, KernelWatchdog, publish_event, set_health, Watched, is_degraded,
  degraded_names, is_down, attempt_restart, attempt_all, check_cycle,
}
use aura_aioscpu.Kernel.Watchdog.Attempts.{
  status_found, status_missing, attempt_restart_down, attempt_restart-cases,
}

status-store :
    (k name : String) (r : ServiceRecord) (m : ServiceManager)
    → status name (store k r m) ≡ (if k == name then some r.state else status name m)
unfolding status store
status-store k name r m = elim (Bool-cases (k == name)) [
  | inl same ↦ rw (lookup-insert k name r m.registry, same) refl
  | inr other ↦ rw (lookup-insert k name r m.registry, other) refl
]

-- A service that is not down keeps its state.
attempt_restart_keeps :
    (now : ℕ) (k name : String) (w : KernelWatchdog) (m : ServiceManager)
    → is_down (status name m) ≡ false
    → status name (attempt_restart now k (w, m)).1 ≡ status name m
attempt_restart_keeps now k name w m up = elim (attempt_restart-cases now k w m) [
  | inl idle ↦ rw idle refl
  | inr (h, r, known, found, ready, down) ↦
      rw
        (
          attempt_restart_down now k w m h r known ready found down,
          status-store k name (start_record r) m,
        )
        (elim (Bool-cases (k == name)) [
          | inl same ↦
              let e : k ≡ name = (==_iff k name).0 same in
              let here : status name m ≡ some r.state = rw e at (status_found k m r found) in
              let no : is_down (some r.state) ≡ false = rw here at up in cc
          | inr other ↦ rw other refl
        ])
]

attempt_all_keeps :
    (clock : String → ℕ) (names : List String) (name : String) (w : KernelWatchdog)
    (m : ServiceManager)
    → is_down (status name m) ≡ false
    → status name (attempt_all clock names (w, m)).1 ≡ status name m
unfolding attempt_all
attempt_all_keeps clock [] name w m up = refl
attempt_all_keeps clock (k ∷ names) name w m up =
    let (w', m') = attempt_restart (clock k) k (w, m) in
    let kept = attempt_restart_keeps (clock k) k name w m up in
    attempt_all_keeps clock names name w' m' (ap is_down kept ∙ up) ∙ kept

-- A check leaves the state of every service that is neither stopped nor registered.
check_cycle_keeps :
    (clock : String → ℕ) (name : String) (w : KernelWatchdog) (m : ServiceManager)
    → is_down (status name m) ≡ false
    → status name (check_cycle clock (w, m)).1 ≡ status name m
unfolding check_cycle
check_cycle_keeps clock name w m up =
    if_ind (λ (s : Watched). status name s.1 ≡ status name m) w.auto_restart
      (λ _. attempt_all_keeps clock (degraded_names m w.health) name _ m up) (λ _. refl)

-- An attempt on another service.
attempt_restart_other :
    (now : ℕ) (k name : String) (w : KernelWatchdog) (m : ServiceManager)
    → (k == name) ≡ false
    → let (w', m') = attempt_restart now k (w, m) in
      (lookup name w'.health ≡ lookup name w.health) × (status name m' ≡ status name m)
unfolding publish_event set_health
attempt_restart_other now k name w m other = elim (attempt_restart-cases now k w m) [
  | inl idle ↦ rw idle (refl, refl)
  | inr (h, r, known, found, ready, down) ↦
      let h' = record h { restart_count = h.restart_count + 1 } in
      rw (attempt_restart_down now k w m h r known ready found down) (
        rw (lookup-insert k name h' w.health, other) refl,
        rw (status-store k name (start_record r) m, other) refl,
      )
]

module _ (clock : String → ℕ) (name : String) (h : ServiceHealth) where
  attempt_restart_self :
      (w : KernelWatchdog) (m : ServiceManager)
      → is_restartable (clock name) h ≡ true
      → lookup name w.health ≡ some h
      → status name m ≡ some stopped
      → status name (attempt_restart (clock name) name (w, m)).1 ≡ some starting
  unfolding status start_record
  attempt_restart_self w m ready known off = elim (Option-cases (lookup name m.registry)) [
    | inl missing ↦ let e : none ≡ some stopped = sym (status_missing name m missing) ∙ off in cc
    | inr (r, found) ↦
        let e : some r.state ≡ some stopped = sym (status_found name m r found) ∙ off in
        rw
          (
            attempt_restart_down (clock name) name w m h r known ready found (ap is_down e),
            status-store name name (start_record r) m,
            ==-refl name,
          )
          refl
  ]

  attempt_all_restarts :
      (names : List String) (w : KernelWatchdog) (m : ServiceManager)
      → has name names ≡ true
      → is_restartable (clock name) h ≡ true
      → lookup name w.health ≡ some h
      → status name m ≡ some stopped
      → status name (attempt_all clock names (w, m)).1 ≡ some starting
  unfolding attempt_all has
  attempt_all_restarts [] w m listed ready known off = cc
  attempt_all_restarts (k ∷ names) w m listed ready known off =
      let (w', m') = attempt_restart (clock k) k (w, m) in
      elim (Bool-cases (k == name)) [
        | inl same ↦
            let e : k ≡ name = (==_iff k name).0 same in
            let up = attempt_restart_self w m ready known off in
            let (w'', m'') = attempt_restart (clock name) name (w, m) in
            rw e (attempt_all_keeps clock names name w'' m'' (ap is_down up) ∙ up)
        | inr other ↦
            let (same_health, same_status) = attempt_restart_other (clock k) k name w m other in
            attempt_all_restarts names w' m' (ground (arith, ==_iff k name, ==_iff name k)) ready
              (same_health ∙ known) (same_status ∙ off)
      ]

  has-degraded_names :
      (m : ServiceManager) (health : List (String × ServiceHealth))
      → lookup name health ≡ some h
      → is_restartable (clock name) h ≡ true
      → status name m ≡ some stopped
      → has name (degraded_names m health) ≡ true
  unfolding degraded_names lookup has is_restartable
  has-degraded_names m [] known ready off = cc
  has-degraded_names m ((k, g) ∷ health) known ready off =
      ground (arith, ==_iff k name, ==_iff name k, ap is_degraded off, has-degraded_names m health)

-- With automatic restarts, a check starts each stopped service whose health allows it: it is starting
-- afterwards.
pub check_cycle_restarts :
    (clock : String → ℕ) (name : String) (h : ServiceHealth) (w : KernelWatchdog)
    (m : ServiceManager)
    → w.auto_restart ≡ true
    → lookup name w.health ≡ some h
    → is_restartable (clock name) h ≡ true
    → status name m ≡ some stopped
    → status name (check_cycle clock (w, m)).1 ≡ some starting
unfolding check_cycle publish_event
check_cycle_restarts clock name h w m auto known ready off = rw auto (
    attempt_all_restarts clock name h (degraded_names m w.health) _ m
      (has-degraded_names clock name h m w.health known ready off) ready known off)
