-- ===== src/Services/Manager/Tests.antt =====
-- Runs of services/__init__.py's manager.

use aura_aioscpu.Prelude.{
  string_eq, nat_eq, lookup, insert, AllValues-insert, ◌≡◌, refl, some, List, [], ◌∷◌,
}
use aura_aioscpu.Services.Manager.Threads.{IsSingle}
use aura_aioscpu.Services.Manager.{
  running, stopped, alive, ServiceRecord, ServiceManager, store, publish, start_record, start,
  begin_at, end_at, thread_begins, end_thread, thread_ends, set_state, stop_begins,
}
use aura_aioscpu.Services.Manager.Lifecycle.{
  Step, start_step, stop_begin_step, stop_return_step, begin_step, end_step, apply, run,
  run-IsSingle,
}

abbrev net : ServiceRecord
net = record {
  name = "net";
  unit = ("name", "net") ∷ ("entrypoint", "net.py") ∷ [];
  entrypoint = "net.py";
  state = running;
  threads = alive ∷ [];
}

abbrev manager : ServiceManager
manager = record { registry = ("net", net) ∷ []; published = [] }

manager-IsSingle : IsSingle manager
unfolding insert lookup
manager-IsSingle = AllValues-insert "net" net [] refl (record { at = λ k v e. cc })

abbrev steps : List Step
steps =
    stop_begin_step "net"
    ∷ end_step 0 "net"
    ∷ stop_return_step "net"
    ∷ start_step "net"
    ∷ begin_step 0 "net"
    ∷ []

run-IsSingle_example : IsSingle (run steps manager)
unfolding run lookup apply thread_ends stop_begins set_state store insert end_thread end_at publish
run-IsSingle_example = run-IsSingle steps manager ((refl, refl), tt) manager-IsSingle

-- Another call starts the service between the end of its thread and the return of `stop`, which then says
-- that it is stopped while its new thread runs.
abbrev disturbed : List Step
disturbed =
    stop_begin_step "net"
    ∷ end_step 0 "net"
    ∷ start_step "net"
    ∷ begin_step 0 "net"
    ∷ stop_return_step "net"
    ∷ []

run_overwrites :
    lookup "net" (run disturbed manager).registry
    ≡ some (record net { state = stopped; threads = alive ∷ [] })
unfolding lookup run apply publish set_state thread_begins start thread_ends stop_begins store
    insert end_thread end_at begin_at start_record
run_overwrites = refl
