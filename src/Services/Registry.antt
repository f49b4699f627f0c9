-- ===== src/Services/Registry.antt =====
-- The service registry of services/registry.py: starting, stopping and restarting the services that
-- the service files describe. A service's class is a parameter: `launch` imports it, constructs it with
-- the bus and starts it, and `halt` calls the `stop` that an instance has.
pub mod Descriptors
pub mod Order
pub mod Parser
pub mod Search
pub mod LoadOrder
pub mod Fuel
pub mod DependencyOrder
pub mod Lifecycle
pub mod Autostart
mod Tests
use aura_aioscpu.Prelude.{
  if◌then◌else◌, string_eq, nat_eq, lookup, insert, Outcome, ok, raise, ◌>>=◌, ℕ, ◌+◌, String, Bool,
  true, false, Option, none, some, List, [], ◌∷◌, ◌++◌, map,
}
use aura_aioscpu.Prelude.Text.{is_empty, rsplit}
use aura_aioscpu.Services.Registry.Descriptors.{
  ServiceState, stopped, running, failed, ServiceDescriptor, RegistryEvent, service_started,
  service_stopped, service_failed, ServiceRegistry,
}
use mathlib.Core.Option

-- `launch module_path class_name`: `none` where an import, the constructor or `start` raises.
-- `halt instance`: where `stop` raises, the instance as it leaves it. `clock name`: the time at which
-- the service has started.
pub record Host (I : Type 0) : Type 0 where
  pub launch : String → String → Option I
  pub halt : I → Outcome I (Unit {0})
  pub clock : String → ℕ

-- `desc.module.rsplit(":", 1)` and what is made of the two parts.
unfoldable pub launch_module : {I : Type 0} → Host I → String → Option I
launch_module host path = do parts ← rsplit b':' path; host.launch parts.0 parts.1

module _ {I F : Type 0} where
  unfoldable pub publish_event : RegistryEvent → ServiceRegistry I F → ServiceRegistry I F
  publish_event e r = if r.has_bus then record r { published = r.published ++ e ∷ [] } else r

  -- The descriptor that stands under the name is changed.
  unfoldable pub set_descriptor :
      String → ServiceDescriptor I F → ServiceRegistry I F → ServiceRegistry I F
  set_descriptor name desc r = record r { registry = insert name desc r.registry }

  abbrev pub mark_running : Option I → ℕ → ServiceDescriptor I F → ServiceDescriptor I F
  mark_running i now desc = record desc { instance_of = i; state = running; started_at = now }

  abbrev pub mark_failed : ServiceDescriptor I F → ServiceDescriptor I F
  mark_failed desc = record desc { state = failed; failure_count = desc.failure_count + 1 }

  unfoldable pub start_service :
      Host I → String → ServiceDescriptor I F → ServiceRegistry I F → Bool × ServiceRegistry I F
  start_service host name desc r =
      if is_empty desc.module_path
      then (true, set_descriptor name (mark_running desc.instance_of (host.clock name) desc) r)
      else elim (launch_module host desc.module_path) [
        | some i ↦ (
          true,
          publish_event (service_started desc.name)
              (set_descriptor name (mark_running (some i) (host.clock name) desc) r),
        )
        | none ↦ (
          false,
          publish_event (service_failed desc.name) (set_descriptor name (mark_failed desc) r),
        )
      ]

  unfoldable pub start : Host I → String → ServiceRegistry I F → Bool × ServiceRegistry I F
  start host name r = elim (lookup name r.registry) [
    | none ↦ (false, r)
    | some desc ↦ start_service host name desc r
  ]

  unfoldable pub halt_service :
      Host I → String → ServiceDescriptor I F → I → ServiceRegistry I F → Bool × ServiceRegistry I F
  halt_service host name desc i r = elim (host.halt i) [
    | ok _ ↦ (
      true,
      publish_event (service_stopped name)
          (set_descriptor name (record desc { state = stopped; instance_of = none }) r),
    )
    | raise j ↦ (false, set_descriptor name (record desc { instance_of = some j }) r)
  ]

  unfoldable pub stop : Host I → String → ServiceRegistry I F → Bool × ServiceRegistry I F
  stop host name r = elim (lookup name r.registry) [
    | none ↦ (false, r)
    | some desc ↦ elim desc.instance_of [
      | none ↦ (false, r)
      | some i ↦ halt_service host name desc i r
    ]
  ]

  unfoldable pub restart : Host I → String → ServiceRegistry I F → Bool × ServiceRegistry I F
  restart host name r = start host name (stop host name r).1

  abbrev pub note_started :
      String → List String → Bool × ServiceRegistry I F → List String × ServiceRegistry I F
  note_started name started result = (if result.0 then started ++ name ∷ [] else started, result.1)

  -- The loop of `start_all_autostart`, with the names that it has started.
  unfoldable pub autostart_one :
      Host I → String → List String × ServiceRegistry I F → List String × ServiceRegistry I F
  autostart_one host name s = elim (lookup name s.1.registry) [
    | none ↦ s
    | some desc ↦
        if desc.auto_start then note_started name s.0 (start_service host name desc s.1) else s
  ]

  unfoldable pub autostart :
      Host I → List String → List String × ServiceRegistry I F → List String × ServiceRegistry I F
  autostart host [] s = s
  autostart host (n ∷ ns) s = autostart host ns (autostart_one host n s)

  unfoldable pub start_all_autostart :
      Host I → ServiceRegistry I F → List String × ServiceRegistry I F
  start_all_autostart host r = autostart host r.load_order ([], r)

  unfoldable pub get_state : String → ServiceRegistry I F → Option ServiceState
  get_state name r = Option.map (λ desc. desc.state) (lookup name r.registry)
