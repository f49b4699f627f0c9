-- ===== src/Services/Manager.antt =====
-- The service manager of services/__init__.py. A service runs in a thread that changes the record of
-- the service on its own, so the steps of the threads are operations too: `thread_begins` up to the
-- call of the entry point, and `thread_ends` from its return. The threads of a record that `register`
-- has replaced are left out: they can only publish.
pub mod Threads
pub mod Lifecycle
pub mod Timeout
mod Tests
use mathlib.Core.Option
use aura_aioscpu.Prelude.{
  if◌then◌else◌, string_eq, nat_eq, lookup, insert, has_key, Outcome, ok, raise, ℕ, zero, suc,
  String, Bool, true, false, not, ◌||◌, Option, none, some, List, [], ◌∷◌, ◌++◌, map,
}

pub data ServiceState : Type 0 where
  registered starting running stopping stopped : ServiceState

-- A thread between `start` and its first step, or in its entry point.
pub data ThreadPhase : Type 0 where
  spawned alive : ThreadPhase

-- A record, which only `register` makes: `entrypoint` is `unit["entrypoint"]`, which it has made sure of.
pub record ServiceRecord : Type 0 where
  pub name : String
  pub unit : List (String × String)
  pub entrypoint : String
  pub state : ServiceState
  pub threads : List ThreadPhase

pub data ManagerEvent : Type 0 where
  service_registered service_started service_stopped : (name : String) → ManagerEvent

pub record ServiceManager : Type 0 where
  pub registry : List (String × ServiceRecord)
  pub published : List ManagerEvent

-- What the methods raise.
pub data ManagerError : Type 0 where
  missing_keys unknown_service wrong_state : ManagerError

abbrev pub required_unit_keys : List String
required_unit_keys = "name" ∷ "entrypoint" ∷ []

-- A method: what it returns or raises, and the manager that it leaves.
abbrev pub ManagerMethod : Type 0
ManagerMethod = Outcome ManagerError (Unit {0}) × ServiceManager

-- `REQUIRED_UNIT_KEYS - set(unit)` is not empty.
unfoldable pub misses_keys : List String → List (String × String) → Bool
misses_keys [] unit = false
misses_keys (k ∷ ks) unit = not (has_key k unit) || misses_keys ks unit

-- The text is empty only where the key is missing.
unfoldable pub entrypoint_of : List (String × String) → String
entrypoint_of unit = elim (lookup "entrypoint" unit) [ none ↦ "" | some e ↦ e ]

unfoldable pub store : String → ServiceRecord → ServiceManager → ServiceManager
store name r m = record m { registry = insert name r m.registry }

unfoldable pub publish : ManagerEvent → ServiceManager → ServiceManager
publish e m = record m { published = m.published ++ e ∷ [] }

unfoldable pub register : String → List (String × String) → ServiceManager → ManagerMethod
register name unit m = if misses_keys required_unit_keys unit then (raise missing_keys, m) else (
  ok tt,
  publish (service_registered name) (
      store name
        (record {
          name = name;
          unit = unit;
          entrypoint = entrypoint_of unit;
          state = registered;
          threads = [];
        })
        m),
)

abbrev pub can_start : ServiceState → Bool
can_start registered = true
can_start stopped = true
can_start _ = false

-- `start`, up to the start of the thread.
unfoldable pub start_record : ServiceRecord → ServiceRecord
start_record r = record r { state = starting; threads = spawned ∷ r.threads }

unfoldable pub start : String → ServiceManager → ManagerMethod
start name m = elim (lookup name m.registry) [
  | none ↦ (raise unknown_service, m)
  | some r ↦
      if can_start r.state then (ok tt, store name (start_record r) m) else (raise wrong_state, m)
]

-- The thread at the place begins; the newest one stands at 0. `none`: there is none that has not begun.
unfoldable pub begin_at : ℕ → List ThreadPhase → Option (List ThreadPhase)
begin_at i [] = none
begin_at zero (spawned ∷ ts) = some (alive ∷ ts)
begin_at zero (alive ∷ ts) = none
begin_at (suc i) (t ∷ ts) = Option.map (λ us. t ∷ us) (begin_at i ts)

-- The entry point of the thread at the place returns.
unfoldable pub end_at : ℕ → List ThreadPhase → Option (List ThreadPhase)
end_at i [] = none
end_at zero (spawned ∷ ts) = none
end_at zero (alive ∷ ts) = some ts
end_at (suc i) (t ∷ ts) = Option.map (λ us. t ∷ us) (end_at i ts)

-- `_run` of a thread up to its entry point.
unfoldable pub thread_begins : ℕ → String → ServiceManager → ServiceManager
thread_begins i name m = elim (lookup name m.registry) [
  | none ↦ m
  | some r ↦ elim (begin_at i r.threads) [
    | none ↦ m
    | some ts ↦
        publish (service_started name) (store name (record r { state = running; threads = ts }) m)
  ]
]

-- The `finally` of `_run`, for one record.
unfoldable pub end_thread : ℕ → ServiceRecord → Option ServiceRecord
end_thread i r = Option.map (λ ts. record r { state = stopped; threads = ts }) (end_at i r.threads)

unfoldable pub thread_ends : ℕ → String → ServiceManager → ServiceManager
thread_ends i name m = elim (lookup name m.registry) [
  | none ↦ m
  | some r ↦ elim (end_thread i r) [
    | none ↦ m
    | some r' ↦ publish (service_stopped name) (store name r' m)
  ]
]

-- `record.thread.join(timeout=5.0)`: whether the thread ends before the time is up.
unfoldable pub join : Bool → String → ServiceManager → ServiceManager
join true name m = thread_ends 0 name m
join false name m = m

unfoldable pub set_state : ServiceState → String → ServiceManager → ServiceManager
set_state s name m = elim (lookup name m.registry) [
  | none ↦ m
  | some r ↦ store name (record r { state = s }) m
]

abbrev pub is_running : ServiceState → Bool
is_running running = true
is_running _ = false

-- `stop` up to its join.
unfoldable pub stop_begins : String → ServiceManager → ManagerMethod
stop_begins name m = elim (lookup name m.registry) [
  | none ↦ (raise unknown_service, m)
  | some r ↦
      if is_running r.state then (ok tt, set_state stopping name m) else (raise wrong_state, m)
]

-- `stop` from the return of its join, on the record that it has begun with.
abbrev pub stop_returns : String → ServiceManager → ServiceManager
stop_returns name m = publish (service_stopped name) (set_state stopped name m)

-- A `stop` during which there is no other call: the service's thread at most ends while it waits. With
-- other threads it is the two parts above and what comes between them.
unfoldable pub stop : Bool → String → ServiceManager → ManagerMethod
stop joined name m = elim (lookup name m.registry) [
  | none ↦ (raise unknown_service, m)
  | some r ↦
      if is_running r.state
      then (ok tt, stop_returns name (join joined name (set_state stopping name m)))
      else (raise wrong_state, m)
]

-- `status`: `none` stands for "unknown".
unfoldable pub status : String → ServiceManager → Option ServiceState
status name m = Option.map (λ r. r.state) (lookup name m.registry)
