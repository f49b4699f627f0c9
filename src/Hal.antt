-- ===== src/Hal.antt =====
-- The hardware abstraction layer of hal/__init__.py. `D` is the type of the devices; a memory region is
-- its size. `str` of a number is a parameter.
pub mod Projection
mod Tests
use aura_aioscpu.Prelude.{
  if◌then◌else◌, string_eq, nat_eq, length, lookup, insert, erase, has_key, Outcome, ok, raise, ℕ,
  String, Bool, true, false, not, Option, none, some, List, [], ◌∷◌, ◌++◌,
}
use aura_aioscpu.Prelude.Text.{concat}

pub record Hal (D : Type 0) : Type 0 where
  pub is_running : Bool
  pub regions : List (String × ℕ)
  pub devices : List (String × D)
  pub bus : List D
  pub projection_active : Bool

pub data HalError : Type 0 where
  permission_error : HalError

-- A device that is to be projected: the name that its specification has, and the specification.
pub record DeviceSpec (D : Type 0) : Type 0 where
  pub name : Option String
  pub device : D

-- `device_spec.get("name", f"dev_{…}")`
unfoldable pub device_name : (ℕ → String) → Option String → ℕ → String
device_name decimal none n = concat "dev_" (decimal n)
device_name decimal (some name) n = name

module _ {D : Type 0} where
  unfoldable pub init : Hal D
  init = record {
    is_running = false;
    regions = [];
    devices = [];
    bus = [];
    projection_active = false;
  }

  unfoldable pub allocate : String → ℕ → Hal D → Hal D
  allocate name size_bytes h = record h { regions = insert name size_bytes h.regions }

  unfoldable pub free : String → Hal D → Hal D
  free name h = record h { regions = erase name h.regions }

  unfoldable pub has_region : String → Hal D → Bool
  has_region name h = has_key name h.regions

  unfoldable pub attach : D → Hal D → Hal D
  attach d h = record h { bus = h.bus ++ d ∷ [] }

  unfoldable pub detach_all : Hal D → Hal D
  detach_all h = record h { bus = [] }

  unfoldable pub release_all : Hal D → Hal D
  release_all h = record h { regions = [] }

  unfoldable pub start : Hal D → Hal D
  start h = record h { is_running = true }

  unfoldable pub stop : Hal D → Hal D
  stop h = detach_all (release_all (record h { is_running = false }))

  unfoldable pub register_device : String → D → Hal D → Hal D
  register_device name d h = attach d (record h { devices = insert name d h.devices })

  unfoldable pub get_device : String → Hal D → Option D
  get_device name h = lookup name h.devices

  unfoldable pub enable_projection : Hal D → Hal D
  enable_projection h = record h { projection_active = true }

  unfoldable pub project : (ℕ → String) → DeviceSpec D → Hal D → Outcome HalError (Unit {0}) × Hal D
  project decimal spec h =
      if not h.projection_active
      then (raise permission_error, h)
      else (ok tt, register_device (device_name decimal spec.name (length h.devices)) spec.device h)

  unfoldable pub teardown_all : Hal D → Hal D
  teardown_all h =
      let freed = release_all (record (detach_all h) { devices = [] }) in
      record freed { is_running = false; projection_active = false }
