-- ===== src/Services/Manager/Timeout.antt =====
-- A stop in services/__init__.py whose join times out.
use mathlib.Core.Option
use aura_aioscpu.Prelude.{
  string_eq, nat_eq, lookup, insert, lookup-insert_self, String, ◌≡◌, false, Option, some, List, [],
  ◌∷◌, arith,
}
use aura_aioscpu.Services.Manager.{
  starting, running, stopping, stopped, ThreadPhase, spawned, alive, ServiceRecord, ServiceManager,
  store, publish, start_record, start, begin_at, thread_begins, join, set_state, stop,
}

-- The threads of a service.
abbrev pub threads_of : String → ServiceManager → Option (List ThreadPhase)
threads_of name m = Option.map (λ r. r.threads) (lookup name m.registry)

-- `stop` with a join that times out, and then `start` and the first step of the new thread.
abbrev pub stop_and_start : String → ServiceManager → ServiceManager
stop_and_start name m = thread_begins 0 name (start name (stop false name m).1).1

-- A running service whose join times out can be started again while its thread still runs: then it has
-- two.
stop_and_start_threads :
    (name : String) (m : ServiceManager) (r : ServiceRecord)
    → lookup name m.registry ≡ some r
    → r.state ≡ running
    → r.threads ≡ alive ∷ []
    → threads_of name (stop_and_start name m) ≡ some (alive ∷ alive ∷ [])
unfolding stop start thread_begins join set_state store publish start_record begin_at
stop_and_start_threads name m r found up one =
    let r1 = record r { state = stopping } in
    let reg1 = insert name r1 m.registry in
    let r2 = record r { state = stopped } in
    let reg2 = insert name r2 reg1 in
    let r3 = record r { state = starting; threads = spawned ∷ r.threads } in
    let reg3 = insert name r3 reg2 in
    let r4 = record r { state = running; threads = alive ∷ r.threads } in
    ground (
      arith,
      lookup-insert_self name r1 m.registry,
      lookup-insert_self name r2 reg1,
      lookup-insert_self name r3 reg2,
      lookup-insert_self name r4 reg3,
    )
