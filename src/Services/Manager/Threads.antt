-- ===== src/Services/Manager/Threads.antt =====
-- The threads of a service in services/__init__.py, and what `register`, `start` and a thread keep of them.

use aura_aioscpu.Prelude.{
  Bool-cases, Option-cases, string_eq, nat_eq, lookup, AllValues, AllValues-insert, ℕ, zero, suc,
  String, ◌≡◌, refl, ap, inl, inr, true, none, some, List, [], ◌∷◌,
}
use aura_aioscpu.Services.Manager.{
  ServiceState, registered, starting, running, stopping, stopped, ThreadPhase, spawned, alive,
  ServiceRecord, ServiceManager, required_unit_keys, misses_keys, store, publish, register,
  can_start, start_record, start, begin_at, end_at, thread_begins, end_thread, thread_ends,
}

-- The threads that a state goes with: at most one.
abbrev pub Fits : ServiceState → List ThreadPhase → Type 0
Fits registered ts = ts ≡ []
Fits starting ts = ts ≡ spawned ∷ []
Fits running ts = ts ≡ alive ∷ []
Fits stopping ts = ts ≡ alive ∷ []
Fits stopped ts = ts ≡ []

abbrev pub IsFitting : ServiceRecord → Type 0
IsFitting r = Fits r.state r.threads

-- Each service has the threads that its state says.
abbrev pub IsSingle : ServiceManager → Type 0
IsSingle m = AllValues IsFitting m.registry

pub store-IsSingle :
    (name : String) (r : ServiceRecord) (m : ServiceManager)
    → IsFitting r
    → IsSingle m
    → IsSingle (store name r m)
unfolding store
store-IsSingle name r m fits h = AllValues-insert name r m.registry fits h

pub register-IsSingle :
    (name : String) (unit : List (String × String)) (m : ServiceManager)
    → IsSingle m
    → IsSingle (register name unit m).1
unfolding register publish
register-IsSingle name unit m h = elim (Bool-cases (misses_keys required_unit_keys unit)) [
  | inl bad ↦ rw bad h
  | inr good ↦ rw good (store-IsSingle name _ m refl h)
]

start_Fits : (s : ServiceState) (ts : List ThreadPhase) → can_start s ≡ true → Fits s ts → ts ≡ []
start_Fits registered ts can fits = fits
start_Fits starting ts can fits = cc
start_Fits running ts can fits = cc
start_Fits stopping ts can fits = cc
start_Fits stopped ts can fits = fits

start_record-Fits :
    (r : ServiceRecord) → can_start r.state ≡ true → IsFitting r → IsFitting (start_record r)
unfolding start_record
start_record-Fits r can fits = ap (◌∷◌ spawned) (start_Fits r.state r.threads can fits)

pub start-IsSingle : (name : String) (m : ServiceManager) → IsSingle m → IsSingle (start name m).1
unfolding start
start-IsSingle name m h = elim (Option-cases (lookup name m.registry)) [
  | inl missing ↦ rw (missing, start) h
  | inr (r, found) ↦ elim (Bool-cases (can_start r.state)) [
    | inl can ↦
        rw (found, start, can)
          (store-IsSingle name _ m (start_record-Fits r can (h.at name r found)) h)
    | inr cannot ↦ rw (found, start, cannot) h
  ]
]

-- A thread begins only where one is spawned, and ends only where one is alive.
begin_spawned :
    (i : ℕ) (us : List ThreadPhase) → begin_at i (spawned ∷ []) ≡ some us → us ≡ alive ∷ []
unfolding begin_at
begin_spawned zero us e = cc
begin_spawned (suc i) us e = cc

begin_alive : (i : ℕ) → begin_at i (alive ∷ []) ≡ none
unfolding begin_at
begin_alive zero = refl
begin_alive (suc i) = refl

begin_Fits :
    (i : ℕ) (s : ServiceState) (ts us : List ThreadPhase)
    → begin_at i ts ≡ some us
    → Fits s ts
    → us ≡ alive ∷ []
unfolding begin_at
begin_Fits i registered ts us e fits = cc
begin_Fits i starting ts us e fits = begin_spawned i us (rw fits at e)
begin_Fits i running ts us e fits = cc (begin_alive i)
begin_Fits i stopping ts us e fits = cc (begin_alive i)
begin_Fits i stopped ts us e fits = cc

end_alive : (i : ℕ) (us : List ThreadPhase) → end_at i (alive ∷ []) ≡ some us → us ≡ []
unfolding end_at
end_alive zero us e = cc
end_alive (suc i) us e = cc

end_spawned : (i : ℕ) → end_at i (spawned ∷ []) ≡ none
unfolding end_at
end_spawned zero = refl
end_spawned (suc i) = refl

end_Fits :
    (i : ℕ) (s : ServiceState) (ts us : List ThreadPhase)
    → end_at i ts ≡ some us
    → Fits s ts
    → us ≡ []
unfolding end_at
end_Fits i registered ts us e fits = cc
end_Fits i starting ts us e fits = cc (end_spawned i)
end_Fits i running ts us e fits = end_alive i us (rw fits at e)
end_Fits i stopping ts us e fits = end_alive i us (rw fits at e)
end_Fits i stopped ts us e fits = cc

module _ (i : ℕ) (name : String) (m : ServiceManager) (h : IsSingle m) where
  pub thread_begins-IsSingle : IsSingle (thread_begins i name m)
  unfolding thread_begins publish
  thread_begins-IsSingle = elim (Option-cases (lookup name m.registry)) [
    | inl missing ↦ rw (missing, thread_begins) h
    | inr (r, found) ↦ elim (Option-cases (begin_at i r.threads)) [
      | inl idle ↦ rw (found, thread_begins, idle) h
      | inr (us, begun) ↦
          rw (found, thread_begins, begun)
            (store-IsSingle name _ m (begin_Fits i r.state r.threads us begun (h.at name r found))
              h)
    ]
  ]

  pub thread_ends-IsSingle : IsSingle (thread_ends i name m)
  unfolding thread_ends end_thread publish
  thread_ends-IsSingle = elim (Option-cases (lookup name m.registry)) [
    | inl missing ↦ rw (missing, thread_ends) h
    | inr (r, found) ↦ elim (Option-cases (end_at i r.threads)) [
      | inl idle ↦ rw (found, thread_ends, idle) h
      | inr (us, ended) ↦
          rw (found, thread_ends, ended)
            (store-IsSingle name _ m (end_Fits i r.state r.threads us ended (h.at name r found)) h)
    ]
  ]
