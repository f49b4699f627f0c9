-- ===== src/Services/HealthMonitor/Breaker.antt =====
-- The circuit breaker of services/health_monitor.py's `ServiceHealth`, over a sequence of checks.
use aura_aioscpu.Prelude.{
  leb, if◌then◌else◌, Bool-cases, nat_eq, string_eq, length, ℕ, ◌+◌, ◌≤◌, ◌≡◌, refl, ap, ◌∙◌, inl,
  inr, Bool, true, false, List, [], ◌∷◌, arith,
}
use aura_aioscpu.Services.HealthMonitor.{
  Circuit, closed, opened, ServiceHealth, new_health, record_healthy, opens, record_failure,
}

-- One check: whether the service was running.
unfoldable pub observe : ℕ → Bool → ServiceHealth → ServiceHealth
observe max up h = if up then record_healthy h else (record_failure max h).0

unfoldable pub observe_all : ℕ → List Bool → ServiceHealth → ServiceHealth
observe_all max [] h = h
observe_all max (up ∷ ups) h = observe_all max ups (observe max up h)

-- The number of failures since the last success, where `n` came before the checks.
unfoldable pub failures_since : ℕ → List Bool → ℕ
failures_since n [] = n
failures_since n (true ∷ ups) = failures_since 0 ups
failures_since n (false ∷ ups) = failures_since (n + 1) ups

unfoldable pub failures_in : List Bool → ℕ
failures_in [] = 0
failures_in (true ∷ ups) = failures_in ups
failures_in (false ∷ ups) = failures_in ups + 1

abbrev pub circuit_at : ℕ → ℕ → Circuit
circuit_at max n = if leb max n then opened else closed

-- The circuit says whether the failures in a row have reached the maximum.
pub record IsTracking (max : ℕ) (h : ServiceHealth) : Type 0 where
  pub tracks : h.circuit ≡ circuit_at max h.consecutive_failures
  pub within : h.consecutive_failures ≤ h.total_failures
  pub among : h.total_failures ≤ h.total_checks

pub new_health-IsTracking : (max : ℕ) → 1 ≤ max → IsTracking max new_health
new_health-IsTracking max h = record {
  tracks = ground arith;
  within = omega arith;
  among = omega arith;
}

pub record_healthy-IsTracking :
    (max : ℕ) (h : ServiceHealth) → 1 ≤ max → IsTracking max h → IsTracking max (record_healthy h)
unfolding record_healthy
record_healthy-IsTracking max h pos t = record {
  tracks = ground arith;
  within = omega arith;
  among = omega (arith, t.among);
}

next_circuit :
    (max : ℕ) (h : ServiceHealth)
    → h.circuit ≡ circuit_at max h.consecutive_failures
    → (if opens max h then opened else h.circuit) ≡ circuit_at max (h.consecutive_failures + 1)
unfolding opens
next_circuit max h t = elim (Bool-cases (leb max h.consecutive_failures)) [
  | inl over ↦ ground (arith, t)
  | inr under ↦ ground (arith, t)
]

pub record_failure-IsTracking :
    (max : ℕ) (h : ServiceHealth) → IsTracking max h → IsTracking max (record_failure max h).0
unfolding record_failure
record_failure-IsTracking max h t = record {
  tracks = next_circuit max h t.tracks;
  within = omega (arith, t.within);
  among = omega (arith, t.among);
}

pub observe-IsTracking :
    (max : ℕ) (up : Bool) (h : ServiceHealth)
    → 1 ≤ max
    → IsTracking max h
    → IsTracking max (observe max up h)
unfolding observe
observe-IsTracking max true h pos t = record_healthy-IsTracking max h pos t
observe-IsTracking max false h pos t = record_failure-IsTracking max h t

observe_all-IsTracking :
    (max : ℕ) (ups : List Bool) (h : ServiceHealth)
    → 1 ≤ max
    → IsTracking max h
    → IsTracking max (observe_all max ups h)
unfolding observe_all
observe_all-IsTracking max [] h pos t = t
observe_all-IsTracking max (up ∷ ups) h pos t =
    observe_all-IsTracking max ups (observe max up h) pos (observe-IsTracking max up h pos t)

pub observe_all_counts :
    (max : ℕ) (ups : List Bool) (h : ServiceHealth)
    → let after = observe_all max ups h in
      (after.consecutive_failures ≡ failures_since h.consecutive_failures ups)
      × (after.total_checks ≡ h.total_checks + length ups)
      × (after.total_failures ≡ h.total_failures + failures_in ups)
unfolding observe_all observe failures_since failures_in record_healthy record_failure
observe_all_counts max [] h = (refl, omega arith, omega arith)
observe_all_counts max (true ∷ ups) h =
    let (a, b, c) = observe_all_counts max ups (record_healthy h) in (a, omega arith, c)
observe_all_counts max (false ∷ ups) h =
    let (a, b, c) = observe_all_counts max ups (record_failure max h).0 in
    (a, omega arith, omega arith)

-- After checks of a new service the circuit is open just when the failures since the last success
-- have reached the maximum, which is at least one; and the totals count all checks and all failures.
pub observe_all_lem :
    (max : ℕ) (ups : List Bool)
    → 1 ≤ max
    → let after = observe_all max ups new_health in
      (after.circuit ≡ (if leb max (failures_since 0 ups) then opened else closed))
      × (after.consecutive_failures ≡ failures_since 0 ups)
      × (after.total_checks ≡ length ups)
      × (after.total_failures ≡ failures_in ups)
observe_all_lem max ups pos =
    let (a, b, c) = observe_all_counts max ups new_health in
    let t = observe_all-IsTracking max ups new_health pos (new_health-IsTracking max pos) in
    (t.tracks ∙ ap (circuit_at max) a, a, omega arith, omega arith)
