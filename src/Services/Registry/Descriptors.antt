-- ===== src/Services/Registry/Descriptors.antt =====
-- The data of services/registry.py: service files, descriptors and the registry.
use aura_aioscpu.Prelude.{string_eq, nat_eq, ℕ, String, Bool, Option, List}

pub data ServiceState : Type 0 where
  stopped starting running failed disabled : ServiceState

pub data RestartPolicy : Type 0 where
  never always on_failure : RestartPolicy

-- `I`: the instances of the service classes; `F`: the numbers that `float` and `int` read.
pub record ServiceDescriptor (I F : Type 0) : Type 0 where
  pub name : String
  pub description : String
  pub module_path : String
  pub auto_start : Bool
  pub restart_policy : RestartPolicy
  pub restart_delay : F
  pub depends_on : List String
  pub check_interval : F
  pub max_failures : F
  pub state : ServiceState
  pub failure_count : ℕ
  pub started_at : ℕ
  pub instance_of : Option I

pub data RegistryEvent : Type 0 where
  service_started service_stopped service_failed : (service : String) → RegistryEvent

pub record ServiceRegistry (I F : Type 0) : Type 0 where
  pub registry : List (String × ServiceDescriptor I F)
  pub load_order : List String
  pub has_bus : Bool
  pub published : List RegistryEvent

-- What configparser answers for the options of the two sections; a section that is missing has none.
pub record ServiceFile : Type 0 where
  pub service : String → Option String
  pub health : String → Option String

-- `float` and `int` on texts: `none` stands for `ValueError`.
pub record Numbers (F : Type 0) : Type 0 where
  pub read_float : String → Option F
  pub read_int : String → Option F
