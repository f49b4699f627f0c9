-- ===== src/Hal/Tests.antt =====
-- Runs of hal/__init__.py's layer.
use aura_aioscpu.Prelude.{
  if◌then◌else◌, string_eq, nat_eq, ◌==◌, length, insert, ok, raise, ℕ, String, ◌≡◌, refl, false,
  none, List, [], ◌∷◌,
}
use aura_aioscpu.Hal.{
  permission_error, DeviceSpec, device_name, init, attach, detach_all, release_all, stop,
  register_device, enable_projection, project,
}
use aura_aioscpu.Hal.Projection.{Call, enable_call, register_call, apply, run, consent, project-run}

abbrev decimal : ℕ → String
decimal n = if n == 1 then "1" else "0"

abbrev spec : DeviceSpec String
spec = record { name = none; device = "lamp" }

abbrev calls : List (Call String)
calls = register_call "disk" "old" ∷ enable_call ∷ register_call "disk" "new" ∷ []

-- A device that is registered again is on the bus twice, and a stop leaves the devices in the table only.
bus_twice : (run decimal calls init).bus ≡ "old" ∷ "new" ∷ []
unfolding run apply register_device attach enable_projection init
bus_twice = refl

stop_devices : (stop (run decimal calls init)).devices ≡ ("disk", "new") ∷ []
unfolding stop detach_all release_all run apply register_device attach insert enable_projection init
stop_devices = refl

project-run_example : project decimal spec (run decimal calls init) ≡ (
    if consent decimal calls false
    then (
      ok tt,
      register_device
          (device_name decimal none (length (run decimal calls init).devices))
          "lamp"
          (run decimal calls init),
    )
    else (raise permission_error, run decimal calls init))
project-run_example = project-run decimal calls spec
