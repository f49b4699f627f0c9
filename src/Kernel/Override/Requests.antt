-- ===== src/Kernel/Override/Requests.antt =====
-- The data of kernel/override.py: requests, results, the audit log, the layer and its effects.
use aura_aioscpu.Prelude.{string_eq, nat_eq, Outcome, ℕ, String, Bool, Option, List, [], ◌∷◌}

pub data Denial : Type 0 where
  no_denial not_overrideable bridge_unsupported protected_partition empty_reason declined : Denial
  execution_failed : String → Denial

pub record OverrideRequest : Type 0 where
  pub action : String
  pub reason : String
  pub requestor : String
  pub target_path : String
  pub extra : List (String × String)
  pub request_id : String
  pub timestamp : ℕ

pub record OverrideResult : Type 0 where
  pub result_id : String
  pub approved : Bool
  pub executed : Bool
  pub denial_reason : Denial
  pub output : Option String

-- `entry` of `OverrideLog.record`, a copy of the request and of the result at that time.
pub record Entry : Type 0 where
  pub kernel_mode : String
  pub request : OverrideRequest
  pub result : OverrideResult

pub data Effect : Type 0 where
  warned : Effect
  prompted : Effect
  recorded : Entry → Effect
  published : (event_type : String) → Effect
  executing : (request_id : String) → Effect

-- `get_bridge()`: the capabilities of the host.
pub record Bridge : Type 0 where
  pub available_capabilities : List String

pub record OverrideLog : Type 0 where
  pub log_dir : String
  pub entries : List Entry
  pub file : List Entry

-- `guard_bridge` is the `_bridge` of the guard, and `bridge` the attribute that `Kernel.start` sets.
pub record CommandOverrideLayer : Type 0 where
  pub guard_bridge : Option Bridge
  pub bridge : Option Bridge
  pub has_event_bus : Bool
  pub current_mode : String
  pub log : OverrideLog
  pub disk_writable : Bool
  pub trace : List Effect

abbrev pub overrideable_actions : List String
overrideable_actions =
    "net.listen" ∷ "net.raw" ∷ "fs.chmod" ∷ "fs.mount_bind" ∷ "storage.partition" ∷ "service.start"
    ∷ "service.stop" ∷ "model.load" ∷ "kernel.config_write" ∷ []

abbrev pub protected_partitions : List String
protected_partitions = "boot" ∷ "system" ∷ []

-- The arguments of `request_override`. `execute_fn` stands for the callable by what a call of it
-- would do: return an output, which is a text, or raise with a message.
pub record Arguments : Type 0 where
  pub action : String
  pub reason : String
  pub target_path : String
  pub extra : List (String × String)
  pub confirm : Bool
  pub requestor : String
  pub execute_fn : Option (Outcome String String)

-- The metadata of a request: texts, as `Arguments` has them, or a value that JSON has not.
pub data Metadata : Type 0 where
  texts : (extra : List (String × String)) → Metadata
  not_json : Metadata

-- `json.dumps` raises TypeError.
pub data FingerprintError : Type 0 where
  type_error : FingerprintError

-- What the layer reads from outside: `uuid`, the clock, and the operator's answer to the prompt.
pub record Inputs : Type 0 where
  pub request_id : String
  pub now : ℕ
  pub answer : Option String
