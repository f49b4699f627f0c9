-- ===== src/Hal/Projection.antt =====
-- Projection onto hardware in hal/__init__.py needs the consent that `enable_projection` stands for.
use aura_aioscpu.Prelude.{
  if◌then◌else◌, if_ind, string_eq, nat_eq, length, Outcome, ok, raise, ℕ, String, ◌≡◌, refl, ap,
  ◌∙◌, Bool, true, false, not, List, [], ◌∷◌,
}
use aura_aioscpu.Hal.{
  Hal, HalError, permission_error, DeviceSpec, device_name, init, allocate, free, attach,
  detach_all, release_all, start, stop, register_device, enable_projection, project, teardown_all,
}

-- The calls that change a layer.
pub data Call (D : Type 0) : Type 0 where
  allocate_call : String → (size_bytes : ℕ) → Call D
  free_call : String → Call D
  start_call stop_call enable_call teardown_call : Call D
  register_call : String → (device : D) → Call D
  project_call : DeviceSpec D → Call D

if_not {ℓ} : {A : Type ℓ} (b : Bool) (x y : A) → (if not b then x else y) ≡ (if b then y else x)
if_not true x y = refl
if_not false x y = refl

module _ {D : Type 0} (decimal : ℕ → String) where
  unfoldable pub apply : Call D → Hal D → Hal D
  apply (allocate_call name size) h = allocate name size h
  apply (free_call name) h = free name h
  apply start_call h = start h
  apply stop_call h = stop h
  apply enable_call h = enable_projection h
  apply teardown_call h = teardown_all h
  apply (register_call name d) h = register_device name d h
  apply (project_call spec) h = (project decimal spec h).1

  unfoldable pub run : List (Call D) → Hal D → Hal D
  run [] h = h
  run (c ∷ cs) h = run cs (apply c h)

  -- Whether projection is enabled after the calls: by the last of the calls that enable it or tear down.
  unfoldable pub consent : List (Call D) → Bool → Bool
  consent [] given = given
  consent (enable_call ∷ cs) given = consent cs true
  consent (teardown_call ∷ cs) given = consent cs false
  consent (allocate_call _ _ ∷ cs) given = consent cs given
  consent (free_call _ ∷ cs) given = consent cs given
  consent (start_call ∷ cs) given = consent cs given
  consent (stop_call ∷ cs) given = consent cs given
  consent (register_call _ _ ∷ cs) given = consent cs given
  consent (project_call _ ∷ cs) given = consent cs given

  pub project_active :
      (spec : DeviceSpec D) (h : Hal D)
      → (project decimal spec h).1.projection_active ≡ h.projection_active
  unfolding project register_device attach
  project_active spec h =
      if_ind
        (λ (z : Outcome HalError (Unit {0}) × Hal D). z.1.projection_active ≡ h.projection_active)
        (not h.projection_active) (λ _. refl) (λ _. refl)

  run_active :
      (cs : List (Call D)) (h : Hal D)
      → (run cs h).projection_active ≡ consent cs h.projection_active
  unfolding run apply consent allocate free start stop detach_all release_all enable_projection
      teardown_all register_device attach
  run_active [] h = refl
  run_active (allocate_call name size ∷ cs) h = run_active cs _
  run_active (free_call name ∷ cs) h = run_active cs _
  run_active (start_call ∷ cs) h = run_active cs _
  run_active (stop_call ∷ cs) h = run_active cs _
  run_active (enable_call ∷ cs) h = run_active cs _
  run_active (teardown_call ∷ cs) h = run_active cs _
  run_active (register_call name d ∷ cs) h = run_active cs _
  run_active (project_call spec ∷ cs) h = run_active cs _ ∙ ap (consent cs) (project_active spec h)

  -- After any calls from a new layer, a projection succeeds exactly when the last of the calls that
  -- enable projection or tear the layer down enables it; otherwise it raises and changes nothing.
  pub project-run :
      (cs : List (Call D)) (spec : DeviceSpec D)
      → let h = run cs init in
        project decimal spec h ≡ (
          if consent cs false
          then (
            ok tt,
            register_device (device_name decimal spec.name (length h.devices)) spec.device h,
          )
          else (raise permission_error, h))
  unfolding project init
  project-run cs spec =
      let h = run cs init in
      ap
        (λ (b : Bool). if not b then (raise permission_error, h) else (
          ok tt,
          register_device (device_name decimal spec.name (length h.devices)) spec.device h,
        ))
        (run_active cs init)
      ∙ if_not (consent cs false) _ _
