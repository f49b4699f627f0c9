-- ===== src/Kernel/EventBus.antt =====
-- The event bus of kernel/event_bus.py. A callback is a value of `H`; what a call of it does to the
-- rest of the system, the events that it publishes, and whether it raises, is a parameter. The time
-- stamp of an event, which nothing reads, is left out.
pub mod Delivery
mod Tests
use aura_aioscpu.Prelude.{
  ltb, if◌then◌else◌, ◌==◌, nat_eq, string_eq, lookup, insert, ℕ, zero, suc, ◌+◌, String, ◌≡◌, Bool,
  true, false, not, Option, none, some, List, [], ◌∷◌, ◌++◌, arith,
}
use aura_aioscpu.Prelude.Heapq.{LessThan, heappush}

-- `Priority`
abbrev pub critical : ℕ
critical = 0

abbrev pub high : ℕ
high = 1

abbrev pub normal : ℕ
normal = 2

abbrev pub low : ℕ
low = 3

pub record Event (P : Type 0) : Type 0 where
  pub event_type : String
  pub payload : P
  pub priority : ℕ
  pub source : String
  pub seq : ℕ

-- `Event.__lt__`
unfoldable pub less : {P : Type 0} → Event P → Event P → Bool
less e f = if not (e.priority == f.priority) then ltb e.priority f.priority else ltb e.seq f.seq

pub less_asymmetric : {P : Type 0} (a b : Event P) → less a b ≡ true → less b a ≡ false
unfolding less
less_asymmetric a b h = ground arith

pub less_negatively_transitive :
    {P : Type 0} (a b c : Event P) → less b a ≡ false → less c b ≡ false → less c a ≡ false
unfolding less
less_negatively_transitive a b c h k = ground arith

instance abbrev pub event_order : {P : Type 0} → LessThan (Event P)
event_order = record {
  less = less;
  asymmetric = less_asymmetric;
  negatively_transitive = less_negatively_transitive;
}

pub record EventBus (H P : Type 0) : Type 0 where
  pub subscribers : List (String × List H)
  pub queue : List (Event P)

-- What a call of a callback does.
pub record Reaction (P W : Type 0) : Type 0 where
  pub world : W
  pub published : List (Event P)
  pub raised : Bool

-- `self._subscribers.get(event_type, [])`
unfoldable pub callbacks : {H : Type 0} → List (String × List H) → String → List H
callbacks subscribers event_type = elim (lookup event_type subscribers) [
  | none ↦ []
  | some cbs ↦ cbs
]

module _ {H P : Type 0} where
  unfoldable pub subscribe : String → H → EventBus H P → EventBus H P
  unfolding callbacks
  subscribe event_type callback bus = record bus {
    subscribers =
        insert event_type (callbacks bus.subscribers event_type ++ callback ∷ []) bus.subscribers;
  }

  unfoldable pub publish : Event P → EventBus H P → EventBus H P
  publish e bus = record bus { queue = heappush e bus.queue }

  unfoldable pub publish_all : List (Event P) → EventBus H P → EventBus H P
  publish_all [] bus = bus
  publish_all (e ∷ es) bus = publish_all es (publish e bus)

module _ {H P W : Type 0} (call : H → Event P → W → Reaction P W) where
  -- The inner loop of `drain`: an exception of a callback is logged, and the loop goes on.
  unfoldable pub deliver : List H → Event P → W → EventBus H P → W × EventBus H P
  deliver [] e w bus = (w, bus)
  deliver (cb ∷ cbs) e w bus =
      let reaction = call cb e w in
      deliver cbs e reaction.world (publish_all reaction.published bus)

  -- `drain`, with fuel for the events: `none` if it runs out. The result is the number of events, the
  -- system and the bus.
  unfoldable pub drain : ℕ → ℕ → W → EventBus H P → Option (ℕ × W × EventBus H P)
  drain zero count w bus = none
  drain (suc fuel) count w bus = elim bus.queue [
    | [] ↦ some (count, w, bus)
    | e ∷ rest ↦
        let popped = record bus { queue = rest } in
        let (w', bus') = deliver (callbacks bus.subscribers e.event_type) e w popped in
        drain fuel (count + 1) w' bus'
  ]
