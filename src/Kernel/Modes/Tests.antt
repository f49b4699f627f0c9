-- ===== src/Kernel/Modes/Tests.antt =====
-- Runs of kernel/modes/hardware.py's mode.
use aura_aioscpu.Prelude.{
  string_eq, nat_eq, has, add, raise, ℕ, String, ◌≡◌, refl, true, false, some, List, [], ◌∷◌,
}
use aura_aioscpu.Hal.{
  Hal, permission_error, DeviceSpec, attach, register_device, enable_projection, project,
  teardown_all,
}
use aura_aioscpu.Kernel.Modes.{
  hal_refused, Adapters, init, publish, issue_consent_token, revoke_consent_token,
  register_adapters, activate_hardware, announce, project_hardware, withdraw, revoke_hardware,
}
use aura_aioscpu.Kernel.Modes.Consent.{
  Call, issue_call, revoke_token_call, activate_call, revoke_call, is_ok, apply, run, consented,
  project_hardware_lem,
}

abbrev decimal : ℕ → String
decimal n = "0"

abbrev layer : Hal String
layer = record {
  is_running = true;
  regions = [];
  devices = [];
  bus = [];
  projection_active = false;
}

abbrev adapters : Adapters String
adapters = record { network = "net"; display = "screen" }

abbrev spec : DeviceSpec String
spec = record { name = some "lamp0"; device = "lamp" }

-- The last call first: the token is withdrawn after the mode has been activated with it.
abbrev past : List (Call String)
past = revoke_token_call "t" ∷ activate_call "t" adapters ∷ issue_call "t" ∷ []

-- A token that is withdrawn from the store does not end the projection.
project_withdrawn : is_ok (project_hardware decimal spec (run decimal layer past)).0 ≡ true
unfolding project_hardware run apply revoke_consent_token activate_hardware has issue_consent_token
    add init publish announce project register_adapters register_device attach enable_projection
project_withdrawn = refl

-- After a revocation the mode stays attached, and it is the layer that refuses.
project_revoked :
    (project_hardware decimal spec (run decimal layer (revoke_call ∷ past))).0
    ≡ raise (hal_refused permission_error)
unfolding project_hardware run apply revoke_hardware revoke_consent_token activate_hardware has
    issue_consent_token add init publish withdraw announce project teardown_all
project_revoked = refl

-- A token without a letter is not withdrawn by a revocation.
revoke_empty :
    (revoke_hardware
      (run decimal layer (activate_call "" adapters ∷ issue_call "" ∷ []))).valid_tokens
    ≡ "" ∷ []
unfolding revoke_hardware run apply activate_hardware has issue_consent_token add init publish
    withdraw
revoke_empty = refl

project_hardware_lem_example :
    is_ok (project_hardware decimal spec (run decimal layer past)).0 ≡ consented decimal layer past
project_hardware_lem_example = project_hardware_lem decimal layer refl past spec
