-- ===== src/Kernel/EventBus/Tests.antt =====
-- A run of kernel/event_bus.py's bus, with callbacks that count.
use aura_aioscpu.Prelude.{
  nat_eq, string_eq, lookup, ℕ, ◌+◌, ◌*◌, String, ◌≡◌, refl, true, some, [], ◌∷◌,
}
use aura_aioscpu.Kernel.EventBus.{normal, Event, event_order, EventBus, Reaction, callbacks, drain}
use aura_aioscpu.Kernel.EventBus.Delivery.{react, react_all, drain_quiet}

abbrev counting : ℕ → Event ℕ → ℕ → Reaction ℕ ℕ
counting cb e w = record { world = w + cb * e.payload; published = []; raised = true }

abbrev event : String → ℕ → ℕ → Event ℕ
event t payload seq = record {
  event_type = t;
  payload = payload;
  priority = normal;
  source = "test";
  seq = seq;
}

abbrev bus : EventBus ℕ ℕ
bus = record { subscribers = ("A", 1 ∷ 10 ∷ []) ∷ []; queue = event "A" 2 0 ∷ event "B" 5 1 ∷ [] }

drain_quiet_example : drain counting 3 0 100 bus ≡ some (2, 122, record bus { queue = [] })
unfolding react_all react callbacks lookup
drain_quiet_example = drain_quiet counting (λ cb e w. refl) 100 bus
