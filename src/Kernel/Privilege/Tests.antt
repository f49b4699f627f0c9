-- ===== src/Kernel/Privilege/Tests.antt =====
-- Runs of kernel/privilege.py's manager.

use aura_aioscpu.Prelude.Text.{strip, replace}
use aura_aioscpu.Prelude.{
  string_eq, nat_eq, has, String, ◌≡◌, refl, ◌⊎◌, Bool, true, false, ◌||◌, none, some, [], ◌∷◌,
}
use aura_aioscpu.Kernel.Api.{KernelApi}
use aura_aioscpu.Kernel.Override.Requests.{Bridge, CommandOverrideLayer, Inputs}
use aura_aioscpu.Kernel.Override.{
  has_capability, validate, interactive_confirm, new_request, approval, execute, approve, ask,
  respond, request_override,
}
use aura_aioscpu.Kernel.Privilege.{
  AuraPrivilege, bridge_allows, host_arguments, settle_escalation, ask_override,
  request_host_escalation,
}
use aura_aioscpu.Kernel.Privilege.Escalation.{request_host_escalation_approved}

abbrev layer : CommandOverrideLayer
layer = record {
  guard_bridge = none;
  bridge = none;
  has_event_bus = false;
  current_mode = "universal";
  log = record { log_dir = ""; entries = []; file = [] };
  disk_writable = true;
  trace = [];
}

abbrev kernel_api : KernelApi
kernel_api = record {
  permissions = record { mode = "universal"; granted = []; revoked = [] };
  calls = [];
}

abbrev manager : AuraPrivilege
manager = record {
  api = some kernel_api;
  col = some layer;
  log_svc = true;
  bus = false;
  host_escalations = [];
  journal = [];
  written = [];
  events = [];
}

abbrev host : Bridge
host = record { available_capabilities = "net_listen" ∷ "proc_kill" ∷ [] }

abbrev inputs : Inputs
inputs = record { request_id = "r1"; now = 7; answer = none }

abbrev net_listen : String
net_listen = "net.listen"

abbrev answer : Bool × AuraPrivilege
answer = request_host_escalation net_listen "serve" true (some host) inputs manager

answer-approved : answer.0 ≡ true
unfolding request_host_escalation bridge_allows ask_override settle_escalation has has_capability
    replace request_override respond validate new_request host_arguments strip ask approve execute
    approval
answer-approved = refl

request_host_escalation_approved_example :
    ((net_listen ≡ "net.listen") ⊎ ((net_listen ≡ "net.raw") ⊎ (net_listen ≡ "fs.mount_bind")))
    × (bridge_allows (some host) net_listen ≡ true)
    × ((true || interactive_confirm none) ≡ true)
request_host_escalation_approved_example =
    request_host_escalation_approved net_listen "serve" true (some host) inputs manager
      answer-approved
