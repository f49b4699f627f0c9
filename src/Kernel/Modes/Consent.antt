-- ===== src/Kernel/Modes/Consent.antt =====
-- When the hardware mode of kernel/modes/hardware.py projects a device.
use aura_aioscpu.Prelude.{
  Bool-cases, if_ind, string_eq, nat_eq, has, Outcome, ok, raise, ℕ, String, ◌≡◌, refl, sym, ◌∙◌,
  Bool, true, false, not, ◌&&◌, ◌||◌, Option, none, some, List, [], ◌∷◌, arith,
}
use aura_aioscpu.Prelude.Text.{is_empty}
use aura_aioscpu.Hal.{
  Hal, HalError, DeviceSpec, attach, register_device, enable_projection, project, teardown_all,
}
use aura_aioscpu.Hal.Projection.{project_active}
use aura_aioscpu.Kernel.Modes.{
  ModeError, Adapters, Modes, init, publish, issue_consent_token, revoke_consent_token,
  register_adapters, activate_universal, activate_internal, request_permission, activate_hardware,
  announce, project_hardware, withdraw, revoke_hardware,
}

-- The calls that change the modes.
pub data Call (D : Type 0) : Type 0 where
  issue_call revoke_token_call request_call : String → Call D
  universal_call : Adapters D → Call D
  internal_call : List String → Adapters D → Call D
  activate_call : String → Adapters D → Call D
  project_call : DeviceSpec D → Call D
  revoke_call : Call D

abbrev pub is_ok {ℓ κ} : {E : Type κ} {A : Type ℓ} → Outcome E A → Bool
is_ok (ok a) = true
is_ok (raise e) = false

-- Projection is enabled exactly when it has been consented to, and the mode is attached then.
abbrev IsSane : {D : Type 0} → Bool → Modes D → Type 0
IsSane b s = (s.hal.projection_active ≡ b) × ((b && s.hardware_attached) ≡ b)

negated_is_true : {b : Bool} → not b ≡ true → b ≡ false
negated_is_true e = grind arith

negated_is_false : {b : Bool} → not b ≡ false → b ≡ true
negated_is_false e = grind arith

detached : (b c : Bool) → (b && c) ≡ b → c ≡ false → b ≡ false
detached b c attached e = ground (arith, Bool-cases b)

module _ {D : Type 0} where
  activate-IsSane :
      (token : String) (a : Adapters D) (b : Bool) (s : Modes D)
      → IsSane b s
      → IsSane (has token s.valid_tokens || b) (activate_hardware token a s).1
  unfolding activate_hardware publish register_adapters register_device attach enable_projection
  activate-IsSane token a b s sane =
      if_ind
        (λ (z : Outcome ModeError (Unit {0}) × Modes D). IsSane (has token s.valid_tokens || b) z.1)
        (not (has token s.valid_tokens)) (λ e. rw (negated_is_true e) sane)
        (λ e. rw (negated_is_false e) (refl, refl))

  announce-IsSane :
      (spec : DeviceSpec D) (b : Bool) (r : Outcome HalError (Unit {0}) × Hal D) (s : Modes D)
      → r.1.projection_active ≡ s.hal.projection_active
      → IsSane b s
      → IsSane b (announce spec r s).1
  unfolding announce publish
  announce-IsSane spec b (ok _, h) s same (active, attached) = (same ∙ active, attached)
  announce-IsSane spec b (raise e, h) s same (active, attached) = (same ∙ active, attached)

  project-IsSane :
      (decimal : ℕ → String) (spec : DeviceSpec D) (b : Bool) (s : Modes D)
      → IsSane b s
      → IsSane b (project_hardware decimal spec s).1
  unfolding project_hardware
  project-IsSane decimal spec b s sane =
      if_ind (λ (z : Outcome ModeError (Unit {0}) × Modes D). IsSane b z.1)
        (not s.hardware_attached) (λ _. sane)
        (λ _.
          announce-IsSane spec b (project decimal spec s.hal) s (project_active decimal spec s.hal)
            sane)

  withdraw_active :
      (token : Option String) (s : Modes D)
      → (withdraw token s).hal.projection_active ≡ s.hal.projection_active
  unfolding withdraw revoke_consent_token
  withdraw_active none s = refl
  withdraw_active (some token) s =
      if_ind (λ (z : Modes D). z.hal.projection_active ≡ s.hal.projection_active) (is_empty token)
        (λ _. refl) (λ _. refl)

  revoke-IsSane : (b : Bool) (s : Modes D) → IsSane b s → IsSane false (revoke_hardware s)
  unfolding revoke_hardware publish teardown_all
  revoke-IsSane b s (active, attached) =
      if_ind (IsSane false) (not s.hardware_attached)
        (λ e. (active ∙ detached b s.hardware_attached attached (negated_is_true e), refl))
        (λ _. (withdraw_active s.consent_token _, refl))

  project_ok :
      (decimal : ℕ → String) (spec : DeviceSpec D) (h : Hal D)
      → is_ok (project decimal spec h).0 ≡ h.projection_active
  unfolding project
  project_ok decimal spec h = ground (arith, Bool-cases h.projection_active)

  announce_ok :
      (spec : DeviceSpec D) (r : Outcome HalError (Unit {0}) × Hal D) (s : Modes D)
      → is_ok (announce spec r s).0 ≡ is_ok r.0
  unfolding announce
  announce_ok spec (ok _, h) s = refl
  announce_ok spec (raise e, h) s = refl

  project_hardware_ok :
      (decimal : ℕ → String) (spec : DeviceSpec D) (b : Bool) (s : Modes D)
      → IsSane b s
      → is_ok (project_hardware decimal spec s).0 ≡ b
  unfolding project_hardware
  project_hardware_ok decimal spec b s (active, attached) =
      if_ind (λ (z : Outcome ModeError (Unit {0}) × Modes D). is_ok z.0 ≡ b)
        (not s.hardware_attached)
        (λ e. sym (detached b s.hardware_attached attached (negated_is_true e)))
        (λ _.
          announce_ok spec (project decimal spec s.hal) s ∙ project_ok decimal spec s.hal ∙ active)

  request-IsSane :
      (capability : String) (b : Bool) (s : Modes D)
      → IsSane b s
      → IsSane b (request_permission capability s)
  unfolding request_permission publish
  request-IsSane capability b s sane = if_ind (IsSane b) s.internal_attached (λ _. sane) (λ _. sane)

module _ {D : Type 0} (decimal : ℕ → String) (h : Hal D) where
  unfoldable pub apply : Call D → Modes D → Modes D
  apply (issue_call token) s = issue_consent_token token s
  apply (revoke_token_call token) s = revoke_consent_token token s
  apply (request_call capability) s = request_permission capability s
  apply (universal_call a) s = activate_universal a s
  apply (internal_call granted a) s = activate_internal granted a s
  apply (activate_call token a) s = (activate_hardware token a s).1
  apply (project_call spec) s = (project_hardware decimal spec s).1
  apply revoke_call s = revoke_hardware s

  -- The calls of the past, the last one first.
  unfoldable pub run : List (Call D) → Modes D
  run [] = init h
  run (c ∷ past) = apply c (run past)

  -- Some call has activated the mode with a token that was valid then, and no call has revoked it since.
  unfoldable pub consented : List (Call D) → Bool
  consented [] = false
  consented (activate_call token a ∷ past) = has token (run past).valid_tokens || consented past
  consented (revoke_call ∷ past) = false
  consented (project_call _ ∷ past) = consented past
  consented (issue_call _ ∷ past) = consented past
  consented (revoke_token_call _ ∷ past) = consented past
  consented (request_call _ ∷ past) = consented past
  consented (universal_call _ ∷ past) = consented past
  consented (internal_call _ _ ∷ past) = consented past

  run-IsSane :
      h.projection_active ≡ false → (past : List (Call D)) → IsSane (consented past) (run past)
  unfolding run apply consented init issue_consent_token revoke_consent_token activate_universal
      activate_internal publish register_adapters register_device attach
  run-IsSane off [] = (off, refl)
  run-IsSane off (issue_call token ∷ past) = run-IsSane off past
  run-IsSane off (revoke_token_call token ∷ past) = run-IsSane off past
  run-IsSane off (universal_call a ∷ past) = run-IsSane off past
  run-IsSane off (internal_call granted a ∷ past) = run-IsSane off past
  run-IsSane off (request_call capability ∷ past) =
      request-IsSane capability (consented past) (run past) (run-IsSane off past)
  run-IsSane off (activate_call token a ∷ past) =
      activate-IsSane token a (consented past) (run past) (run-IsSane off past)
  run-IsSane off (project_call spec ∷ past) =
      project-IsSane decimal spec (consented past) (run past) (run-IsSane off past)
  run-IsSane off (revoke_call ∷ past) =
      revoke-IsSane (consented past) (run past) (run-IsSane off past)

  -- From a kernel where projection is not enabled, whatever calls are made: the mode projects a device
  -- exactly when a call has activated it with a token that was valid then and no call has revoked the
  -- projection since.
  pub project_hardware_lem :
      h.projection_active ≡ false
      → (past : List (Call D)) (spec : DeviceSpec D)
      → is_ok (project_hardware decimal spec (run past)).0 ≡ consented past
  project_hardware_lem off past spec =
      project_hardware_ok decimal spec (consented past) (run past) (run-IsSane off past)
