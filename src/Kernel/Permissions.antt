-- ===== src/Kernel/Permissions.antt =====
-- The capability model of kernel/permissions.py: the class `PermissionModel`. A method returns its
-- result, or the exception that it raises, beside the object that it leaves.
pub mod Tiers
pub mod Access
pub mod Invariant
pub mod Modes
mod Tests
use aura_aioscpu.Prelude.{
  ltb, leb, if◌then◌else◌, string_eq, has, add, difference, discard, union, lookup, has_key,
  Outcome, ok, raise, ℕ, String, Bool, true, false, Option, none, some, List, [], ◌∷◌,
}
use aura_aioscpu.Kernel.Permissions.Tiers.{tier_1, tier_map, mode_tier, capability_tier}

pub data Error : Type 0 where
  value_error key_error : Error
  permission_denied : (capability current_mode : String) (required_mode : Option String) → Error

pub record PermissionModel : Type 0 where
  pub mode : String
  pub granted : List String
  pub revoked : List String

-- A method that changes the object: what it returns or raises, and the object that it leaves.
abbrev pub Method : Type 0
Method = Outcome Error (Unit {0}) × PermissionModel

unfoldable pub validate_mode : String → Outcome Error String
validate_mode mode = if has_key mode mode_tier then ok mode else raise value_error

-- `PermissionModel(mode)`
unfoldable pub init : String → Outcome Error PermissionModel
init mode = elim (validate_mode mode) [
  | ok m ↦ ok (record { mode = m; granted = []; revoked = [] })
  | raise e ↦ raise e
]

-- The end of `set_mode`, where the new mode is stored: `_MODE_TIER[…]` raises on a missing key.
unfoldable pub settle : PermissionModel → Option ℕ → Option ℕ → Method
settle pm (some new) (some old) = (ok tt, if ltb new old then record pm { granted = [] } else pm)
settle pm (some new) none = (raise key_error, pm)
settle pm none old = (raise key_error, pm)

unfoldable pub set_mode : PermissionModel → String → Method
unfolding validate_mode settle
set_mode pm new_mode = elim (validate_mode new_mode) [
  | ok m ↦ settle (record pm { mode = m }) (lookup m mode_tier) (lookup pm.mode mode_tier)
  | raise e ↦ (raise e, pm)
]

unfoldable pub grant : PermissionModel → String → Method
grant pm capability =
    if has_key capability capability_tier
    then (
      ok tt,
      record pm { granted = add capability pm.granted; revoked = discard capability pm.revoked },
    )
    else (raise value_error, pm)

unfoldable pub revoke : PermissionModel → String → PermissionModel
revoke pm capability = record pm {
  granted = discard capability pm.granted;
  revoked = add capability pm.revoked;
}

unfoldable pub reset_grants : PermissionModel → PermissionModel
reset_grants pm = record pm { granted = []; revoked = [] }

-- `_TIER_MAP.get(self._mode, TIER_1)`
unfoldable pub mode_capabilities : String → List String
mode_capabilities mode = elim (lookup mode tier_map) [ some tier ↦ tier | none ↦ tier_1 ]

-- The loop over `_MODE_TIER.items()` at the end of `check`.
unfoldable pub first_mode : ℕ → List (String × ℕ) → Option String
first_mode needed_tier [] = none
first_mode needed_tier ((m, t) ∷ rest) =
    if leb needed_tier t then some m else first_mode needed_tier rest

unfoldable pub required_mode : String → Option String
unfolding first_mode
required_mode capability = elim (lookup capability capability_tier) [
  | none ↦ none
  | some needed_tier ↦ first_mode needed_tier mode_tier
]

unfoldable pub check : PermissionModel → String → Outcome Error (Unit {0})
check pm capability =
    if has capability pm.revoked
    then raise (permission_denied capability pm.mode none)
    else if has capability (mode_capabilities pm.mode)
    then ok tt
    else if has capability pm.granted
    then ok tt
    else raise (permission_denied capability pm.mode (required_mode capability))

unfoldable pub is_allowed : PermissionModel → String → Bool
is_allowed pm capability = elim (check pm capability) [ ok _ ↦ true | raise _ ↦ false ]

unfoldable pub allowed_capabilities : PermissionModel → List String
allowed_capabilities pm = difference (union (mode_capabilities pm.mode) pm.granted) pm.revoked
