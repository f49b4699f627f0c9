-- ===== src/Kernel/Privilege.antt =====
-- AURA's privilege manager, kernel/privilege.py: `AURAPrivilege` over the kernel API and the command
-- override layer, which it calls as kernel/api.py and kernel/override.py define them.
pub mod Escalation
pub mod VirtualRoot
mod Tests
use aura_aioscpu.Prelude.{
  if◌then◌else◌, string_eq, nat_eq, has, Outcome, ok, raise, String, Bool, true, false, not, Option,
  none, some, List, [], ◌∷◌, ◌++◌,
}
use aura_aioscpu.Prelude.Text.{concat, replace}
use aura_aioscpu.Kernel.Api.{KernelApi, grant_capability, handle}
use aura_aioscpu.Kernel.Override.Requests.{
  Denial, no_denial, OverrideResult, Bridge, CommandOverrideLayer, Arguments, Inputs,
}
use aura_aioscpu.Kernel.Override.{has_capability, request_override}

abbrev pub virtual_root_caps : List String
virtual_root_caps =
    "kernel.config_write" ∷ "kernel.config_read" ∷ "kernel.mode_switch" ∷ "service.start"
    ∷ "service.stop" ∷ "service.register" ∷ "service.query" ∷ "log.read" ∷ "log.write" ∷ "log.clear"
    ∷ "job.submit" ∷ "job.cancel" ∷ "fs.read" ∷ "fs.write" ∷ "fs.list" ∷ "fs.chmod"
    ∷ "storage.write" ∷ "storage.partition" ∷ "shell.command" ∷ "shell.env_write" ∷ "model.load"
    ∷ "model.unload" ∷ "aura.query" ∷ "aura.pulse" ∷ "event.publish" ∷ "event.subscribe"
    ∷ "sysinfo.read" ∷ "net.connect" ∷ "net.send" ∷ "net.recv" ∷ []

abbrev pub host_escalation_eligible : List String
host_escalation_eligible =
    "net.listen" ∷ "net.raw" ∷ "fs.mount_bind" ∷ "hal.project" ∷ "hal.teardown" ∷ "device.write"
    ∷ "proc.kill" ∷ []

abbrev pub permanently_forbidden : List String
permanently_forbidden =
    "host.kernel_patch" ∷ "host.wipe_device" ∷ "host.root_exploit" ∷ "host.bypass_security"
    ∷ "host.illegal_action" ∷ "host.memory_overwrite" ∷ []

-- The `denial` of an audit entry: the texts of this file, or the override layer's.
pub data AuditDenial : Type 0 where
  nothing forbidden not_eligible bridge_refused no_col user_declined : AuditDenial
  execution_error : String → AuditDenial
  by_override : Denial → AuditDenial

pub data PrivilegeTier : Type 0 where
  virtual_root host_root : PrivilegeTier

-- The `entry` of `_audit`; its time stamp is left out.
pub record AuditEntry : Type 0 where
  pub privilege : PrivilegeTier
  pub capability : String
  pub desc : String
  pub approved : Bool
  pub executed : Bool
  pub denial : AuditDenial

-- An element of `_host_escalations`, without its time stamp.
pub record HostEscalation : Type 0 where
  pub capability : String
  pub reason : String

-- `log_svc` and `bus` say whether the two are attached. `journal` is what went to the logger,
-- `written` what went to the logging service, and `events` what went to the event bus.
pub record AuraPrivilege : Type 0 where
  pub api : Option KernelApi
  pub col : Option CommandOverrideLayer
  pub log_svc : Bool
  pub bus : Bool
  pub host_escalations : List HostEscalation
  pub journal : List AuditEntry
  pub written : List AuditEntry
  pub events : List AuditEntry

unfoldable pub audit : AuditEntry → AuraPrivilege → AuraPrivilege
audit entry p = record p {
  journal = p.journal ++ entry ∷ [];
  written = if p.log_svc then p.written ++ entry ∷ [] else p.written;
  events = if p.bus then p.events ++ entry ∷ [] else p.events;
}

unfoldable pub check_virtual : String → Bool
check_virtual capability = has capability virtual_root_caps

unfoldable pub virtual_entry : String → String → Bool → AuditDenial → AuditEntry
virtual_entry capability description executed denial = record {
  privilege = virtual_root;
  capability = capability;
  desc = description;
  approved = true;
  executed = executed;
  denial = denial;
}

-- What `execute_as_virtual_root` raises.
pub data PrivilegeError : Type 0 where
  not_virtual : PrivilegeError
  failed : String → PrivilegeError

-- The end of `execute_as_virtual_root`: `fn` stands for what the call of it does.
unfoldable pub finish_virtual :
    String
    → String
    → Outcome String String
    → AuraPrivilege
    → Outcome PrivilegeError String × AuraPrivilege
finish_virtual capability description (ok result) p =
    (ok result, audit (virtual_entry capability description true nothing) p)
finish_virtual capability description (raise m) p =
    (raise (failed m), audit (virtual_entry capability description false (execution_error m)) p)

unfoldable pub execute_as_virtual_root :
    String
    → Outcome String String
    → String
    → AuraPrivilege
    → Outcome PrivilegeError String × AuraPrivilege
unfolding check_virtual finish_virtual
execute_as_virtual_root capability fn description p =
    if check_virtual capability
    then finish_virtual capability description fn
        (audit (virtual_entry capability description false nothing) p)
    else (raise not_virtual, p)

-- `_bridge_allows`: no bridge is there if `get_bridge()` raises.
unfoldable pub bridge_allows : Option Bridge → String → Bool
bridge_allows none capability = false
bridge_allows (some b) capability = has_capability b (replace "." "_" capability)

unfoldable pub host_entry : String → String → Bool → AuditDenial → AuditEntry
host_entry capability reason approved denial = record {
  privilege = host_root;
  capability = capability;
  desc = reason;
  approved = approved;
  executed = approved;
  denial = denial;
}

unfoldable pub host_arguments : String → String → Bool → Arguments
host_arguments capability reason confirm = record {
  action = capability;
  reason = concat "[AURA host escalation] " reason;
  target_path = "";
  extra = [];
  confirm = confirm;
  requestor = "AURA";
  execute_fn = none;
}

-- `result.denial_reason or "user_declined"`
unfoldable pub denial_or_declined : Denial → AuditDenial
denial_or_declined no_denial = user_declined
denial_or_declined d = by_override d

-- `self._api.grant_capability(capability)`, whose exceptions are logged and passed over.
unfoldable pub grant_through : String → Option KernelApi → Option KernelApi
grant_through capability none = none
grant_through capability (some api) = some (handle (grant_capability capability) api).1

-- Step 5: what is done with the result of the override layer.
unfoldable pub settle_escalation :
    String → String → OverrideResult → AuraPrivilege → Bool × AuraPrivilege
settle_escalation capability reason result p =
    if result.approved
    then (
      result.approved,
      audit (host_entry capability reason true nothing) (record p {
        api = grant_through capability p.api;
        host_escalations =
            p.host_escalations ++ record { capability = capability; reason = reason } ∷ [];
      }),
    )
    else (
      result.approved,
      audit (host_entry capability reason false (denial_or_declined result.denial_reason)) p,
    )

-- Step 4: the override layer is asked.
unfoldable pub ask_override :
    String
    → String
    → Bool
    → Inputs
    → Option CommandOverrideLayer
    → AuraPrivilege
    → Bool × AuraPrivilege
ask_override capability reason confirm inputs none p =
    (false, audit (host_entry capability reason false no_col) p)
ask_override capability reason confirm inputs (some col) p =
    let (result, after) = request_override col (host_arguments capability reason confirm) inputs in
    settle_escalation capability reason result (record p { col = some after })

-- `host` is what `get_bridge()` returns.
unfoldable pub request_host_escalation :
    String → String → Bool → Option Bridge → Inputs → AuraPrivilege → Bool × AuraPrivilege
request_host_escalation capability reason confirm host inputs p =
    if has capability permanently_forbidden
    then (false, audit (host_entry capability reason false forbidden) p)
    else if not (has capability host_escalation_eligible)
    then (false, audit (host_entry capability reason false not_eligible) p)
    else if not (bridge_allows host capability)
    then (false, audit (host_entry capability reason false bridge_refused) p)
    else ask_override capability reason confirm inputs p.col p
