-- ===== src/Kernel/Loop/Ticks.antt =====
-- How long kernel/loop.py's `run` runs, and how it waits.
use mathlib.Core.List.{append-nil, append_assoc}
use aura_aioscpu.Prelude.{
  if◌then◌else◌, Bool-cases, if_ind, string_eq, nat_eq, ◌==◌, length, All, All-append, ℕ, ◌+◌, ◌≤◌,
  ◌≡◌, refl, sym, ◌∙◌, inl, inr, true, false, not, ◌||◌, List, [], ◌∷◌, ◌++◌, arith,
}
use aura_aioscpu.Kernel.Loop.{
  mark_busy, mark_idle, Observation, SystemState, KernelLoop, system_state, tick, sleep, run,
}
use aura_aioscpu.Kernel.Loop.Interval.{IsBounded, mark_busy-IsBounded, mark_idle-IsBounded}

-- The observations up to the first one that stops the loop, that one included.
unfoldable pub until_stop : List Observation → List Observation
until_stop [] = []
until_stop (o ∷ rest) = o ∷ (if o.stops then [] else until_stop rest)

-- The states that AURA is pulsed with, numbered from the tick after `n`.
unfoldable pub numbered : ℕ → List Observation → List SystemState
numbered n [] = []
numbered n (o ∷ rest) = system_state (n + 1) o ∷ numbered (n + 1) rest

module _ (o : Observation) (loop : KernelLoop) where
  tick_stops : (sleep (tick o loop)).stopping ≡ (loop.stopping || o.stops)
  unfolding tick sleep
  tick_stops = refl

  tick_counts : (sleep (tick o loop)).tick_count ≡ loop.tick_count + 1
  unfolding tick sleep
  tick_counts = refl

  tick_pulses :
      (sleep (tick o loop)).pulses ≡ loop.pulses ++ system_state (loop.tick_count + 1) o ∷ []
  unfolding tick sleep
  tick_pulses = refl

-- A loop that is stopping does nothing more.
run_stopping :
    (obs : List Observation) (loop : KernelLoop) → loop.stopping ≡ true → run obs loop ≡ loop
unfolding run
run_stopping [] loop h = refl
run_stopping (o ∷ rest) loop h = ground arith

-- The loop ends with the tick in which it is stopped, and that tick is finished. AURA is pulsed once in
-- each tick, and the ticks are counted one by one.
run-until_stop :
    (obs : List Observation) (loop : KernelLoop)
    → loop.stopping ≡ false
    → let after = run obs loop in
      (after.tick_count ≡ loop.tick_count + length (until_stop obs))
      × (after.pulses ≡ loop.pulses ++ numbered loop.tick_count (until_stop obs))
unfolding run until_stop numbered
run-until_stop [] loop h = (omega arith, sym (append-nil loop.pulses))
run-until_stop (o ∷ rest) loop h = elim (Bool-cases o.stops) [
  | inl stops ↦
      let ended = run_stopping rest (sleep (tick o loop)) (ground (arith, tick_stops o loop)) in
      (ground (arith, ended, tick_counts o loop), ground (arith, ended, tick_pulses o loop))
  | inr goes_on ↦
      let (count, pulses) =
        run-until_stop rest (sleep (tick o loop)) (ground (arith, tick_stops o loop)) in
      (
        ground (arith, count, tick_counts o loop),
        ground (
          arith,
          pulses,
          tick_counts o loop,
          tick_pulses o loop,
          append_assoc loop.pulses (system_state (loop.tick_count + 1) o ∷ [])
              (numbered (loop.tick_count + 1) (until_stop rest)),
        ),
      )
]

-- The interval is bounded, and every wait so far was.
pub record IsPaced (base max : ℕ) (loop : KernelLoop) : Type 0 where
  pub base_is : loop.adaptive.base ≡ base
  pub max_is : loop.adaptive.max ≡ max
  pub bounded : IsBounded loop.adaptive
  pub waits : All (λ n. (base ≤ n) × (n ≤ max)) loop.sleeps

next_IsBounded :
    (o : Observation) (loop : KernelLoop)
    → IsBounded loop.adaptive
    → IsBounded (tick o loop).adaptive
unfolding tick
next_IsBounded o loop h =
    if_ind IsBounded (not (o.events_dispatched == 0) || not (o.tasks_ran == 0))
      (λ _. mark_busy-IsBounded h) (λ _. mark_idle-IsBounded h)

same_limits :
    (o : Observation) (loop : KernelLoop)
    → ((tick o loop).adaptive.base ≡ loop.adaptive.base)
      × ((tick o loop).adaptive.max ≡ loop.adaptive.max)
unfolding tick mark_busy mark_idle
same_limits o loop = ground arith

next_IsPaced :
    {base max : ℕ} (o : Observation) (loop : KernelLoop)
    → IsPaced base max loop
    → IsPaced base max (sleep (tick o loop))
unfolding sleep
next_IsPaced o loop h =
    let bounded = next_IsBounded o loop h.bounded in
    let (lo, hi) = same_limits o loop in
    record {
      base_is = lo ∙ h.base_is;
      max_is = hi ∙ h.max_is;
      bounded = bounded;
      waits =
          All-append _ (tick o loop).sleeps _ (unfold tick in h.waits)
            ((omega (arith, h.base_is, h.max_is), omega (arith, h.base_is, h.max_is)), tt);
    }

-- In a loop whose interval is bounded at the start, every wait lies between the tick interval and the
-- maximal one, however long it runs.
pub run-IsPaced :
    {base max : ℕ} (obs : List Observation) (loop : KernelLoop)
    → IsPaced base max loop
    → IsPaced base max (run obs loop)
unfolding run
run-IsPaced [] loop h = h
run-IsPaced {base} {max} (o ∷ rest) loop h =
    if_ind (IsPaced base max) loop.stopping (λ _. h)
      (λ _. run-IsPaced rest (sleep (tick o loop)) (next_IsPaced o loop h))
