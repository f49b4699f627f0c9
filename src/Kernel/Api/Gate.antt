-- ===== src/Kernel/Api/Gate.antt =====
-- The gate of kernel/api.py: what reaches the kernel, and what a refused call leaves.
use aura_aioscpu.Prelude.{
  string_eq, nat_eq, ==-refl, has_key, ok, raise, Outcome-cases, String, ◌≡◌, refl, ◌⊎◌, inl, inr,
  Bool, true, false, ◌&&◌, List, [], ◌∷◌, arith,
}
use aura_aioscpu.Kernel.Permissions.{Error, PermissionModel, grant, check, is_allowed}
use aura_aioscpu.Kernel.Permissions.Tiers.{capability_tier}
use aura_aioscpu.Kernel.Permissions.Access.{is_allowed-grant}
use aura_aioscpu.Kernel.Api.{
  KernelCall, KernelApi, ApiMethod, hand_over, guarded, Request, publish_request, subscribe,
  get_service, list_services, start_service, stop_service, submit_task, schedule_job, aura_query,
  aura_snapshot, storage_read, storage_write, sysinfo, request_mode_switch, grant_capability,
  revoke_capability, switch_mode, handle,
}

-- The capabilities that a call needs, by the method called. Grants and revocations need none but that
-- for their event.
unfoldable pub demands : Request → List String
demands (subscribe _) = "event.subscribe" ∷ []
demands (get_service _) = "service.query" ∷ []
demands list_services = "service.query" ∷ []
demands (start_service _) = "service.start" ∷ []
demands (stop_service _) = "service.stop" ∷ []
demands (submit_task _) = "job.submit" ∷ []
demands (schedule_job _) = "job.submit" ∷ []
demands (aura_query _) = "aura.query" ∷ []
demands aura_snapshot = "aura.query" ∷ []
demands (storage_read _) = "fs.read" ∷ []
demands (storage_write _ _) = "storage.write" ∷ []
demands sysinfo = "sysinfo.read" ∷ []
demands (request_mode_switch _ _) = "kernel.mode_switch" ∷ "event.publish" ∷ []
demands _ = "event.publish" ∷ []

-- Whether a call may change the permissions.
unfoldable pub administers : Request → Bool
administers (grant_capability _) = true
administers (revoke_capability _) = true
administers _ = false

unfoldable pub all_allowed : PermissionModel → List String → Bool
all_allowed pm [] = true
all_allowed pm (c ∷ cs) = is_allowed pm c && all_allowed pm cs

-- A call passes the gate, and hands one call over to the kernel, or is refused.
abbrev pub Passes : List String → KernelApi → ApiMethod → Type 0
Passes needs api answer =
    (all_allowed api.permissions needs ≡ true)
      × (answer.0 ≡ ok tt)
      × ((call : KernelCall) × (answer.1 ≡ hand_over call api))
    ⊎ (all_allowed api.permissions needs ≡ false)
      × ((e : Error) × (answer.0 ≡ raise e))
      × (answer.1 ≡ api)

check_cases :
    (pm : PermissionModel) (c : String)
    → ((is_allowed pm c ≡ true) × (check pm c ≡ ok tt))
      ⊎ ((is_allowed pm c ≡ false) × ((e : Error) × (check pm c ≡ raise e)))
unfolding is_allowed
check_cases pm c = elim (Outcome-cases (check pm c)) [
  | inl (u, e) ↦ inl (rw (e, is_allowed), e)
  | inr (d, e) ↦ inr (rw (e, is_allowed), (d, e))
]

guarded-Passes :
    (c : String) (call : KernelCall) (api : KernelApi) → Passes (c ∷ []) api (guarded c call api)
unfolding guarded all_allowed
guarded-Passes c call api = elim (check_cases api.permissions c) [
  | inl (allowed, e) ↦ inl (ground arith, ground arith, (call, ground arith))
  | inr (refused, (d, e)) ↦ inr (ground arith, (d, ground arith), ground arith)
]

-- A first capability that is allowed leaves the rest to decide.
and_Passes :
    (c : String) (cs : List String) {api : KernelApi} {answer : ApiMethod}
    → is_allowed api.permissions c ≡ true
    → Passes cs api answer
    → Passes (c ∷ cs) api answer
unfolding all_allowed
and_Passes c cs allowed (inl (all, done, call)) = inl (rw (allowed, all) refl, done, call)
and_Passes c cs allowed (inr (some_not, done, same)) = inr (rw allowed some_not, done, same)

refused_Passes :
    (c : String) (cs : List String) {api : KernelApi}
    → is_allowed api.permissions c ≡ false
    → (e : Error) → Passes (c ∷ cs) api (raise e, api)
unfolding all_allowed
refused_Passes c cs refused e = inr (rw refused refl, (e, refl), refl)

-- A call that administers no permissions goes through exactly if the permission model allows all that
-- it demands: then it hands one call over to the kernel, and else it raises and changes nothing.
pub handle-Passes :
    (r : Request) (api : KernelApi) → administers r ≡ false → Passes (demands r) api (handle r api)
unfolding handle demands administers
handle-Passes (publish_request event) api h = guarded-Passes "event.publish" _ api
handle-Passes (subscribe t) api h = guarded-Passes "event.subscribe" _ api
handle-Passes (get_service name) api h = guarded-Passes "service.query" _ api
handle-Passes list_services api h = guarded-Passes "service.query" _ api
handle-Passes (start_service name) api h = guarded-Passes "service.start" _ api
handle-Passes (stop_service name) api h = guarded-Passes "service.stop" _ api
handle-Passes (submit_task priority) api h = guarded-Passes "job.submit" _ api
handle-Passes (schedule_job interval) api h = guarded-Passes "job.submit" _ api
handle-Passes (aura_query prompt) api h = guarded-Passes "aura.query" _ api
handle-Passes aura_snapshot api h = guarded-Passes "aura.query" _ api
handle-Passes (storage_read key) api h = guarded-Passes "fs.read" _ api
handle-Passes (storage_write key value) api h = guarded-Passes "storage.write" _ api
handle-Passes sysinfo api h = guarded-Passes "sysinfo.read" _ api
handle-Passes (request_mode_switch m token) api h =
    elim (check_cases api.permissions "kernel.mode_switch") [
      | inl (allowed, e) ↦
          rw (e, switch_mode) (and_Passes _ _ allowed (guarded-Passes "event.publish" _ api))
      | inr (refused, (d, e)) ↦ rw (e, switch_mode) (refused_Passes _ _ refused d)
    ]
handle-Passes (grant_capability c) api h = cc
handle-Passes (revoke_capability c) api h = cc

-- A grant of a known capability takes effect also where the event that announces it is refused, and
-- the caller gets the exception.
pub is_allowed-grant_capability :
    (c : String) (api : KernelApi)
    → has_key c capability_tier ≡ true
    → is_allowed (handle (grant_capability c) api).1.permissions c ≡ true
unfolding handle grant guarded
is_allowed-grant_capability c api known =
    ground (arith, is_allowed-grant api.permissions c c, ==-refl c)
