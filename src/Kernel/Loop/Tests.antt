-- ===== src/Kernel/Loop/Tests.antt =====
-- Runs of kernel/loop.py's loop.

use aura_aioscpu.Prelude.{string_eq, nat_eq, refl, Bool, true, false, List, [], ◌∷◌, arith}
use aura_aioscpu.Kernel.Loop.{AdaptiveTick, Observation, KernelLoop, run}
use aura_aioscpu.Kernel.Loop.Ticks.{IsPaced, run-IsPaced}

abbrev pace : AdaptiveTick
pace = record { base = 16; max = 200; factor = 2; current = 16; idle_ticks = 0 }

abbrev loop : KernelLoop
loop = record { stopping = false; tick_count = 0; adaptive = pace; pulses = []; sleeps = [] }

abbrev observation : Bool → Observation
observation stops = record {
  events_dispatched = 0;
  tasks_ran = 1;
  task_queue_depth = 4;
  job_queue_depth = 0;
  service_count = 2;
  stops = stops;
}

abbrev seen : List Observation
seen = observation false ∷ observation true ∷ observation false ∷ []

loop-IsPaced : IsPaced 16 200 loop
loop-IsPaced = record {
  base_is = refl;
  max_is = refl;
  bounded = record { grows = omega arith; above = omega arith; below = omega arith };
  waits = tt;
}

run-IsPaced_example : IsPaced 16 200 (run seen loop)
run-IsPaced_example = run-IsPaced seen loop loop-IsPaced
