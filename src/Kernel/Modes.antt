-- ===== src/Kernel/Modes.antt =====
-- The modes of kernel/modes/universal.py, internal.py and hardware.py over the model of the hardware
-- abstraction layer. `D` is the type of the devices; the adapters of the host bridge are two of them.
pub mod Consent
mod Tests
use aura_aioscpu.Prelude.{
  if◌then◌else◌, string_eq, nat_eq, has, add, discard, Outcome, ok, raise, ℕ, String, Bool, true,
  false, not, Option, none, some, List, [], ◌∷◌, ◌++◌,
}
use aura_aioscpu.Prelude.Text.{is_empty}
use aura_aioscpu.Hal.{
  Hal, HalError, DeviceSpec, enable_projection, register_device, project, teardown_all,
}

pub data ModeEvent (D : Type 0) : Type 0 where
  mode_activated : (mode : String) → ModeEvent D
  mode_activated_with : (mode : String) (permissions : List String) → ModeEvent D
  permission_request : (capability : String) → ModeEvent D
  device_projected : (spec : DeviceSpec D) → ModeEvent D
  projection_revoked : (mode : String) → ModeEvent D

pub data ModeError : Type 0 where
  no_consent : ModeError
  not_active : ModeError
  hal_refused : HalError → ModeError

pub record Adapters (D : Type 0) : Type 0 where
  pub network : D
  pub display : D

-- What the kernel has that the modes change, the store of the consent tokens, and the three modes: each
-- is attached to the kernel or not.
pub record Modes (D : Type 0) : Type 0 where
  pub hal : Hal D
  pub published : List (ModeEvent D)
  pub valid_tokens : List String
  pub universal_attached : Bool
  pub internal_attached : Bool
  pub hardware_attached : Bool
  pub consent_token : Option String

module _ {D : Type 0} where
  unfoldable pub init : Hal D → Modes D
  init h = record {
    hal = h;
    published = [];
    valid_tokens = [];
    universal_attached = false;
    internal_attached = false;
    hardware_attached = false;
    consent_token = none;
  }

  unfoldable pub publish : ModeEvent D → Modes D → Modes D
  publish e s = record s { published = s.published ++ e ∷ [] }

  unfoldable pub issue_consent_token : String → Modes D → Modes D
  issue_consent_token token s = record s { valid_tokens = add token s.valid_tokens }

  unfoldable pub revoke_consent_token : String → Modes D → Modes D
  revoke_consent_token token s = record s { valid_tokens = discard token s.valid_tokens }

  unfoldable pub register_adapters : Adapters D → Hal D → Hal D
  register_adapters a h = register_device "display0" a.display (register_device "net0" a.network h)

  unfoldable pub activate_universal : Adapters D → Modes D → Modes D
  activate_universal a s =
      publish (mode_activated "universal")
        (record s { universal_attached = true; hal = register_adapters a s.hal })

  -- The capabilities of the bridge, once there is one.
  unfoldable pub check_capabilities : List String → Modes D → List String
  check_capabilities available s = if s.universal_attached then available else []

  unfoldable pub activate_internal : List String → Adapters D → Modes D → Modes D
  activate_internal granted a s =
      publish (mode_activated_with "internal" granted)
        (record s { internal_attached = true; hal = register_adapters a s.hal })

  unfoldable pub request_permission : String → Modes D → Modes D
  request_permission capability s =
      if s.internal_attached then publish (permission_request capability) s else s

  unfoldable pub activate_hardware :
      String → Adapters D → Modes D → Outcome ModeError (Unit {0}) × Modes D
  activate_hardware token a s = if not (has token s.valid_tokens) then (raise no_consent, s) else (
    ok tt,
    publish (mode_activated "hardware") (record s {
      hardware_attached = true;
      consent_token = some token;
      hal = register_adapters a (enable_projection s.hal);
    }),
  )

  unfoldable pub announce :
      DeviceSpec D
      → Outcome HalError (Unit {0}) × Hal D
      → Modes D
      → Outcome ModeError (Unit {0}) × Modes D
  announce spec (ok _, h) s = (ok tt, publish (device_projected spec) (record s { hal = h }))
  announce spec (raise e, h) s = (raise (hal_refused e), record s { hal = h })

  unfoldable pub project_hardware :
      (ℕ → String) → DeviceSpec D → Modes D → Outcome ModeError (Unit {0}) × Modes D
  project_hardware decimal spec s =
      if not s.hardware_attached
      then (raise not_active, s)
      else announce spec (project decimal spec s.hal) s

  -- `if self._consent_token: revoke_consent_token(self._consent_token)`
  unfoldable pub withdraw : Option String → Modes D → Modes D
  withdraw none s = s
  withdraw (some token) s =
      if is_empty token then s else record (revoke_consent_token token s) { consent_token = none }

  unfoldable pub revoke_hardware : Modes D → Modes D
  revoke_hardware s =
      if not s.hardware_attached
      then s
      else publish (projection_revoked "hardware")
          (withdraw s.consent_token (record s { hal = teardown_all s.hal }))
