-- ===== src/Kernel/Api.antt =====
-- The public surface of the kernel, kernel/api.py: each method checks one capability with the
-- permission model, and then hands the call over to the kernel. What it hands over is an effect, in
-- its order; what the subsystem does with it is modelled with the subsystem.
pub mod Gate
mod Tests
use aura_aioscpu.Prelude.{
  if◌then◌else◌, string_eq, nat_eq, Outcome, ok, raise, ℕ, String, Option, none, some, List, [],
  ◌∷◌, ◌++◌,
}
use aura_aioscpu.Prelude.Text.{is_empty}
use aura_aioscpu.Kernel.Permissions.{Error, PermissionModel, Method, grant, revoke, check}

pub data EventPriority : Type 0 where
  critical high normal low : EventPriority

-- An event that the API publishes: its type, and the capability or mode that its payload names.
pub record ApiEvent : Type 0 where
  pub event_type : String
  pub subject : String
  pub consent_token : Option String
  pub priority : EventPriority

-- What the kernel's subsystems are asked to do.
pub data KernelCall : Type 0 where
  bus_publish : ApiEvent → KernelCall
  bus_subscribe : (event_type : String) → KernelCall
  services_lookup : (name : String) → KernelCall
  services_list : KernelCall
  services_start services_stop : (name : String) → KernelCall
  scheduler_submit : (priority : ℕ) → KernelCall
  scheduler_schedule : (interval_ms : ℕ) → KernelCall
  aura_ask : (prompt : String) → KernelCall
  aura_state : KernelCall
  storage_get : (key : String) → KernelCall
  storage_put : (key value : String) → KernelCall

pub record KernelApi : Type 0 where
  pub permissions : PermissionModel
  pub calls : List KernelCall

-- What a method returns or raises, and the API that it leaves.
abbrev pub ApiMethod : Type 0
ApiMethod = Outcome Error (Unit {0}) × KernelApi

unfoldable pub hand_over : KernelCall → KernelApi → KernelApi
hand_over call api = record api { calls = api.calls ++ call ∷ [] }

-- `self._perms.check(capability)`, and the rest of the method.
unfoldable pub guarded : String → KernelCall → KernelApi → ApiMethod
unfolding hand_over
guarded capability call api = elim (check api.permissions capability) [
  | ok _ ↦ (ok tt, hand_over call api)
  | raise e ↦ (raise e, api)
]

unfoldable pub publish : ApiEvent → KernelApi → ApiMethod
publish event api = guarded "event.publish" (bus_publish event) api

-- A call of a method of `KernelAPI`.
pub data Request : Type 0 where
  publish_request : ApiEvent → Request
  subscribe : (event_type : String) → Request
  get_service : (name : String) → Request
  list_services : Request
  start_service stop_service : (name : String) → Request
  submit_task : (priority : ℕ) → Request
  schedule_job : (interval_ms : ℕ) → Request
  aura_query : (prompt : String) → Request
  aura_snapshot : Request
  storage_read : (key : String) → Request
  storage_write : (key value : String) → Request
  sysinfo : Request
  request_mode_switch : (new_mode : String) → (consent_token : Option String) → Request
  grant_capability revoke_capability : (capability : String) → Request

-- `if consent_token: payload["consent_token"] = consent_token`
abbrev pub given_token : Option String → Option String
given_token none = none
given_token (some token) = if is_empty token then none else some token

unfoldable pub mode_switch_event : String → Option String → ApiEvent
mode_switch_event new_mode consent_token = record {
  event_type = "MODE_SWITCH_REQUEST";
  subject = new_mode;
  consent_token = given_token consent_token;
  priority = high;
}

unfoldable pub capability_event : String → String → ApiEvent
capability_event event_type capability = record {
  event_type = event_type;
  subject = capability;
  consent_token = none;
  priority = high;
}

-- The second statement of a method runs if the first one does not raise.
abbrev pub and_publish : Method → ApiEvent → KernelApi → ApiMethod
and_publish (ok _, pm) event api = publish event (record api { permissions = pm })
and_publish (raise e, pm) event api = (raise e, record api { permissions = pm })

unfoldable pub switch_mode : String → Option String → KernelApi → ApiMethod
switch_mode new_mode consent_token api = elim (check api.permissions "kernel.mode_switch") [
  | ok _ ↦ publish (mode_switch_event new_mode consent_token) api
  | raise e ↦ (raise e, api)
]

unfoldable pub handle : Request → KernelApi → ApiMethod
unfolding publish switch_mode
handle (publish_request event) api = publish event api
handle (subscribe t) api = guarded "event.subscribe" (bus_subscribe t) api
handle (get_service name) api = guarded "service.query" (services_lookup name) api
handle list_services api = guarded "service.query" services_list api
handle (start_service name) api = guarded "service.start" (services_start name) api
handle (stop_service name) api = guarded "service.stop" (services_stop name) api
handle (submit_task priority) api = guarded "job.submit" (scheduler_submit priority) api
handle (schedule_job interval) api = guarded "job.submit" (scheduler_schedule interval) api
handle (aura_query prompt) api = guarded "aura.query" (aura_ask prompt) api
handle aura_snapshot api = guarded "aura.query" aura_state api
handle (storage_read key) api = guarded "fs.read" (storage_get key) api
handle (storage_write key value) api = guarded "storage.write" (storage_put key value) api
handle sysinfo api = guarded "sysinfo.read" aura_state api
handle (request_mode_switch new_mode token) api = switch_mode new_mode token api
handle (grant_capability c) api =
    and_publish (grant api.permissions c) (capability_event "CAPABILITY_GRANTED" c) api
handle (revoke_capability c) api =
    and_publish (ok tt, revoke api.permissions c) (capability_event "CAPABILITY_REVOKED" c) api
