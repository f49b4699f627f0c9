-- ===== src/Kernel/Loop.antt =====
-- The kernel loop of kernel/loop.py: `AdaptiveTick` and `KernelLoop`. What one tick finds in the event
-- bus and in the scheduler is an input of the tick.
pub mod Interval
pub mod Ticks
mod Tests
use aura_aioscpu.Prelude.{
  ltb, if◌then◌else◌, ◌==◌, nat_eq, string_eq, ℕ, ◌+◌, ◌*◌, min, Bool, false, not, ◌||◌, List, [],
  ◌∷◌, ◌++◌,
}

pub record AdaptiveTick : Type 0 where
  pub base : ℕ
  pub max : ℕ
  pub factor : ℕ
  pub current : ℕ
  pub idle_ticks : ℕ

unfoldable pub adaptive_tick : ℕ → ℕ → ℕ → AdaptiveTick
adaptive_tick base_ms max_ms backoff_factor = record {
  base = base_ms;
  max = max_ms;
  factor = backoff_factor;
  current = base_ms;
  idle_ticks = 0;
}

unfoldable pub mark_busy : AdaptiveTick → AdaptiveTick
mark_busy t = record t { idle_ticks = 0; current = t.base }

-- The interval grows after a grace period of three idle ticks.
unfoldable pub mark_idle : AdaptiveTick → AdaptiveTick
mark_idle t =
    let counted = record t { idle_ticks = t.idle_ticks + 1 } in
    if ltb 3 counted.idle_ticks
    then record counted { current = min (t.current * t.factor) t.max }
    else counted

-- What a tick finds: the events that it dispatched, the tasks and jobs that ran, the depths that it
-- reports to AURA, and whether a SHUTDOWN event was among the events, or `stop` was called.
pub record Observation : Type 0 where
  pub events_dispatched : ℕ
  pub tasks_ran : ℕ
  pub task_queue_depth : ℕ
  pub job_queue_depth : ℕ
  pub service_count : ℕ
  pub stops : Bool

-- `_system_state`, as AURA is pulsed with it.
pub record SystemState : Type 0 where
  pub tick : ℕ
  pub task_queue_depth : ℕ
  pub job_queue_depth : ℕ
  pub service_count : ℕ

-- `pulses` are the states that AURA was given, and `sleeps` the waits of `run` in milliseconds.
pub record KernelLoop : Type 0 where
  pub stopping : Bool
  pub tick_count : ℕ
  pub adaptive : AdaptiveTick
  pub pulses : List SystemState
  pub sleeps : List ℕ

unfoldable pub kernel_loop : ℕ → Bool → ℕ → KernelLoop
unfolding adaptive_tick
kernel_loop tick_interval_ms is_adaptive max_tick_interval_ms = record {
  stopping = false;
  tick_count = 0;
  adaptive =
      adaptive_tick tick_interval_ms
        (if is_adaptive then max_tick_interval_ms else tick_interval_ms) 2;
  pulses = [];
  sleeps = [];
}

unfoldable pub system_state : ℕ → Observation → SystemState
system_state tick o = record {
  tick = tick;
  task_queue_depth = o.task_queue_depth;
  job_queue_depth = o.job_queue_depth;
  service_count = o.service_count;
}

-- `_tick`
unfoldable pub tick : Observation → KernelLoop → KernelLoop
unfolding system_state
tick o loop = record loop {
  stopping = loop.stopping || o.stops;
  tick_count = loop.tick_count + 1;
  pulses = loop.pulses ++ system_state (loop.tick_count + 1) o ∷ [];
  adaptive =
      if not (o.events_dispatched == 0) || not (o.tasks_ran == 0)
      then mark_busy loop.adaptive
      else mark_idle loop.adaptive;
}

unfoldable pub sleep : KernelLoop → KernelLoop
sleep loop = record loop { sleeps = loop.sleeps ++ loop.adaptive.current ∷ [] }

-- `run`, over what its ticks find; it returns early if the loop is stopping.
unfoldable pub run : List Observation → KernelLoop → KernelLoop
run [] loop = loop
run (o ∷ rest) loop =
    let next = run rest (sleep (tick o loop)) in if loop.stopping then loop else next
