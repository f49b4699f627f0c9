-- ===== src/Kernel/EventBus/Delivery.antt =====
-- The order in which kernel/event_bus.py delivers, and the end of `drain`.
use aura_aioscpu.Prelude.{
  nat_eq, string_eq, length, All, All-map, ℕ, zero, suc, ◌+◌, ◌≤◌, ◌<◌, String, ◌≡◌, refl, ap, ◌∙◌,
  some, List, [], ◌∷◌, arith,
}
use aura_aioscpu.Prelude.Heapq.{IsSorted, heappush-IsSorted, length-heappush}
use aura_aioscpu.Kernel.EventBus.{
  Event, less, event_order, EventBus, Reaction, callbacks, publish, publish_all, deliver, drain,
}

-- Publishing keeps the queue in the order of delivery, and adds the one event.
pub publish-IsSorted :
    {H P : Type 0} (e : Event P) (bus : EventBus H P)
    → IsSorted bus.queue
    → IsSorted (publish e bus).queue × (length (publish e bus).queue ≡ length bus.queue + 1)
unfolding publish
publish-IsSorted e bus h =
    (heappush-IsSorted e bus.queue h, omega (arith, length-heappush e bus.queue))

-- In a queue in order, what is delivered next is at least as urgent as all the rest and, among events
-- as urgent, was created first.
pub first_is_urgent :
    {P : Type 0} (e : Event P) (rest : List (Event P))
    → IsSorted (e ∷ rest)
    → All (λ f. (e.priority ≤ f.priority) × (e.priority ≡ f.priority → e.seq ≤ f.seq)) rest
unfolding less
first_is_urgent e rest h = All-map (λ f later. (ground arith, λ same. ground arith)) rest h.0

module _ {H P W : Type 0} (call : H → Event P → W → Reaction P W) where
  -- No callback publishes events of its own.
  abbrev pub IsQuiet : Type 0
  IsQuiet = (cb : H) (e : Event P) (w : W) → (call cb e w).published ≡ []

  -- Each callback of the event is called once, in the order of subscription.
  unfoldable pub react : List H → Event P → W → W
  react [] e w = w
  react (cb ∷ cbs) e w = react cbs e (call cb e w).world

  -- The events one by one.
  unfoldable pub react_all : List (String × List H) → List (Event P) → W → W
  react_all subs [] w = w
  react_all subs (e ∷ es) w = react_all subs es (react (callbacks subs e.event_type) e w)

  deliver_quiet :
      IsQuiet
      → (cbs : List H) (e : Event P) (w : W) (bus : EventBus H P)
      → deliver call cbs e w bus ≡ (react cbs e w, bus)
  unfolding deliver react publish_all
  deliver_quiet quiet [] e w bus = refl
  deliver_quiet quiet (cb ∷ cbs) e w bus = rw (quiet cb e w) (deliver_quiet quiet cbs e _ bus)

  drain_quiet_from :
      IsQuiet
      → (fuel count : ℕ) (w : W) (subs : List (String × List H)) (q : List (Event P))
      → length q < fuel
      → let bus : EventBus H P = record { subscribers = subs; queue = q } in
        drain call fuel count w bus
        ≡ some (count + length q, react_all subs q w, record { subscribers = subs; queue = [] })
  unfolding drain react_all
  drain_quiet_from quiet zero count w subs q h = absurd (omega arith)
  drain_quiet_from quiet (suc fuel) count w subs [] h =
      ap (λ n. some (n, w, record { subscribers = subs; queue = [] })) (omega arith)
  drain_quiet_from quiet (suc fuel) count w subs (e ∷ rest) h =
      rw (deliver_quiet quiet (callbacks subs e.event_type) e w) (
        drain_quiet_from quiet fuel (count + 1) (react (callbacks subs e.event_type) e w) subs rest
          (omega arith)
        ∙ ap
            (λ n. some (
              n,
              react_all subs rest (react (callbacks subs e.event_type) e w),
              record { subscribers = subs; queue = [] },
            ))
            (omega arith))

  -- If no callback publishes, a drain ends: it delivers the events of the queue, each once, in their
  -- order and to all of its subscribers, whatever callbacks raise; it returns their number and
  -- leaves an empty queue.
  pub drain_quiet :
      IsQuiet
      → (w : W) (bus : EventBus H P)
      → drain call (length bus.queue + 1) 0 w bus
        ≡ some (length bus.queue, react_all bus.subscribers bus.queue w, record bus { queue = [] })
  drain_quiet quiet w bus =
      drain_quiet_from quiet (length bus.queue + 1) 0 w bus.subscribers bus.queue (omega arith)
      ∙ ap (λ n. some (n, react_all bus.subscribers bus.queue w, record bus { queue = [] }))
          (omega arith)
