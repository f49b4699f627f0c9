-- ===== src/Services/Manager/Lifecycle.antt =====
-- The lifecycle of a service in services/__init__.py, over every interleaving of calls and threads.
use mathlib.Core.Path.{subst}
use aura_aioscpu.Prelude.{
  Bool-cases, Option-cases, string_eq, nat_eq, lookup, ℕ, String, ◌≡◌, inl, inr, true, Option, none,
  some, List, [], ◌∷◌,
}
use aura_aioscpu.Services.Manager.{
  ServiceState, running, stopping, stopped, ThreadPhase, alive, ServiceRecord, ServiceManager,
  publish, register, start, thread_begins, thread_ends, set_state, is_running, stop_begins,
  stop_returns,
}
use aura_aioscpu.Services.Manager.Threads.{
  Fits, IsSingle, store-IsSingle, register-IsSingle, start-IsSingle, thread_begins-IsSingle,
  thread_ends-IsSingle,
}

-- What can happen, in any order: a call of `register` or `start`, the two parts of a call of `stop`, and
-- the steps of a thread.
pub data Step : Type 0 where
  register_step : (name : String) → (unit : List (String × String)) → Step
  start_step stop_begin_step stop_return_step : (name : String) → Step
  begin_step end_step : (i : ℕ) → (name : String) → Step

unfoldable pub apply : Step → ServiceManager → ServiceManager
apply (register_step name unit) m = (register name unit m).1
apply (start_step name) m = (start name m).1
apply (stop_begin_step name) m = (stop_begins name m).1
apply (stop_return_step name) m = stop_returns name m
apply (begin_step i name) m = thread_begins i name m
apply (end_step i name) m = thread_ends i name m

unfoldable pub run : List Step → ServiceManager → ServiceManager
run [] m = m
run (s ∷ steps) m = run steps (apply s m)

-- The service has stopped and has no thread.
abbrev pub IsDown : Option ServiceRecord → Type 0
IsDown none = ⊥
IsDown (some r) = (r.state ≡ stopped) × (r.threads ≡ [])

-- Each `stop` returns while its service is down: its join has seen the thread end, and no other call has
-- started the service since.
abbrev pub IsUndisturbed : List Step → ServiceManager → Type 0
IsUndisturbed [] m = Unit
IsUndisturbed (stop_return_step name ∷ steps) m =
    IsDown (lookup name m.registry) × IsUndisturbed steps (apply (stop_return_step name) m)
IsUndisturbed (register_step name unit ∷ steps) m =
    IsUndisturbed steps (apply (register_step name unit) m)
IsUndisturbed (start_step name ∷ steps) m = IsUndisturbed steps (apply (start_step name) m)
IsUndisturbed (stop_begin_step name ∷ steps) m =
    IsUndisturbed steps (apply (stop_begin_step name) m)
IsUndisturbed (begin_step i name ∷ steps) m = IsUndisturbed steps (apply (begin_step i name) m)
IsUndisturbed (end_step i name ∷ steps) m = IsUndisturbed steps (apply (end_step i name) m)

running_Fits :
    (s : ServiceState) (ts : List ThreadPhase) → is_running s ≡ true → Fits s ts → ts ≡ alive ∷ []
running_Fits running ts up fits = fits
running_Fits _ ts up fits = cc

set_state-IsSingle :
    (s : ServiceState) (name : String) (m : ServiceManager) (r : ServiceRecord)
    → lookup name m.registry ≡ some r
    → Fits s r.threads
    → IsSingle m
    → IsSingle (set_state s name m)
unfolding set_state
set_state-IsSingle s name m r found fits h =
    rw (found, set_state) (store-IsSingle name (record r { state = s }) m fits h)

stop_begins-IsSingle :
    (name : String) (m : ServiceManager) → IsSingle m → IsSingle (stop_begins name m).1
unfolding stop_begins
stop_begins-IsSingle name m h = elim (Option-cases (lookup name m.registry)) [
  | inl missing ↦ rw (missing, stop_begins) h
  | inr (r, found) ↦ elim (Bool-cases (is_running r.state)) [
    | inl up ↦
        let one = running_Fits r.state r.threads up (h.at name r found) in
        rw (found, stop_begins, up) (set_state-IsSingle stopping name m r found one h)
    | inr down ↦ rw (found, stop_begins, down) h
  ]
]

stop_returns-IsSingle :
    (name : String) (m : ServiceManager)
    → IsDown (lookup name m.registry)
    → IsSingle m
    → IsSingle (stop_returns name m)
unfolding publish
stop_returns-IsSingle name m down h = elim (Option-cases (lookup name m.registry)) [
  | inl missing ↦ absurd (subst IsDown missing down)
  | inr (r, found) ↦
      let (off, nothing) = subst IsDown found down in
      set_state-IsSingle stopped name m r found nothing h
]

-- If the current record of every service has at most one thread, and exactly the one that its state
-- says, it does so after every sequence of calls, parts of calls and thread steps in which each `stop`
-- returns while its service is down.
pub run-IsSingle :
    (steps : List Step) (m : ServiceManager)
    → IsUndisturbed steps m
    → IsSingle m
    → IsSingle (run steps m)
unfolding run apply
run-IsSingle [] m calm h = h
run-IsSingle (register_step name unit ∷ steps) m calm h =
    run-IsSingle steps (register name unit m).1 calm (register-IsSingle name unit m h)
run-IsSingle (start_step name ∷ steps) m calm h =
    run-IsSingle steps (start name m).1 calm (start-IsSingle name m h)
run-IsSingle (stop_begin_step name ∷ steps) m calm h =
    run-IsSingle steps (stop_begins name m).1 calm (stop_begins-IsSingle name m h)
run-IsSingle (stop_return_step name ∷ steps) m (down, calm) h =
    run-IsSingle steps (stop_returns name m) calm (stop_returns-IsSingle name m down h)
run-IsSingle (begin_step i name ∷ steps) m calm h =
    run-IsSingle steps (thread_begins i name m) calm (thread_begins-IsSingle i name m h)
run-IsSingle (end_step i name ∷ steps) m calm h =
    run-IsSingle steps (thread_ends i name m) calm (thread_ends-IsSingle i name m h)
