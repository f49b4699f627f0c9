-- ===== src/Kernel/Watchdog/Failures.antt =====
-- The failures that kernel/watchdog.py counts in its checks.
use mathlib.Core.Option
use aura_aioscpu.Prelude.{
  Bool-cases, if_ind, string_eq, nat_eq, ◌==◌, ==_iff, lookup, lookup-insert, ℕ, ◌+◌, String, ◌≡◌,
  refl, ap, ◌∙◌, inl, inr, some, List, [], ◌∷◌, arith,
}
use aura_aioscpu.Services.Manager.{ServiceManager}
use aura_aioscpu.Kernel.Watchdog.{
  ServiceHealth, KernelWatchdog, publish_event, set_health, Watched, degraded_names,
  attempt_restart, attempt_all, check_integrity, check_cycle,
}
use aura_aioscpu.Kernel.Watchdog.Attempts.{
  failures, failures_of, attempt_restart_down, attempt_restart-cases,
}

attempt_restart_failures :
    (now : ℕ) (k name : String) (w : KernelWatchdog) (m : ServiceManager)
    → failures_of name (attempt_restart now k (w, m)).0 ≡ failures_of name w
unfolding publish_event set_health
attempt_restart_failures now k name w m = elim (attempt_restart-cases now k w m) [
  | inl idle ↦ rw idle refl
  | inr (h, r, known, found, ready, down) ↦
      let h' = record h { restart_count = h.restart_count + 1 } in
      rw (attempt_restart_down now k w m h r known ready found down)
        (elim (Bool-cases (k == name)) [
          | inl same ↦
              let e : k ≡ name = (==_iff k name).0 same in
              let known' : lookup name w.health ≡ some h = rw e at known in
              rw (lookup-insert k name h' w.health, same, known') refl
          | inr other ↦ rw (lookup-insert k name h' w.health, other) refl
        ])
]

attempt_all_failures :
    (clock : String → ℕ) (names : List String) (name : String) (w : KernelWatchdog)
    (m : ServiceManager)
    → failures_of name (attempt_all clock names (w, m)).0 ≡ failures_of name w
unfolding attempt_all
attempt_all_failures clock [] name w m = refl
attempt_all_failures clock (k ∷ names) name w m =
    let (w', m') = attempt_restart (clock k) k (w, m) in
    attempt_all_failures clock names name w' m' ∙ attempt_restart_failures (clock k) k name w m

check_integrity_health : (w : KernelWatchdog) → (check_integrity w).health ≡ w.health
unfolding check_integrity
check_integrity_health w = ground arith

-- A check records no failure: of every service, the number of failures, the time of the last one and
-- whether it is disabled stay as they are.
check_cycle_failures :
    (clock : String → ℕ) (name : String) (w : KernelWatchdog) (m : ServiceManager)
    → failures_of name (check_cycle clock (w, m)).0 ≡ failures_of name w
unfolding check_cycle publish_event
check_cycle_failures clock name w m =
    ap (λ (l : List (String × ServiceHealth)). Option.map failures (lookup name l))
      (check_integrity_health _)
    ∙ if_ind (λ (s : Watched). failures_of name s.0 ≡ failures_of name w) w.auto_restart
        (λ _. attempt_all_failures clock (degraded_names m w.health) name _ m) (λ _. refl)
