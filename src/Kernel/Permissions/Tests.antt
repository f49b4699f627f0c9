-- ===== src/Kernel/Permissions/Tests.antt =====
-- Runs of kernel/permissions.py's model.

use aura_aioscpu.Prelude.{
  ltb, string_eq, nat_eq, has, difference, union, lookup, insert, ℕ, ◌≤◌, String, ◌≡◌, refl, true,
  false, not, ◌&&◌, ◌||◌, Option, some, [], ◌∷◌,
}
use aura_aioscpu.Kernel.Permissions.{
  PermissionModel, set_mode, mode_capabilities, first_mode, required_mode, check, is_allowed,
}
use aura_aioscpu.Kernel.Permissions.Tiers.{mode_tier, assign, capability_tier}
use aura_aioscpu.Kernel.Permissions.Modes.{within, required_mode_least, is_allowed-set_mode}

abbrev net_raw : String
net_raw = "net.raw"

abbrev some_internal : Option String
some_internal = some "internal"

abbrev universal : PermissionModel
universal = record { mode = "universal"; granted = []; revoked = [] }

abbrev internal : PermissionModel
internal = record { mode = "internal"; granted = "net.raw" ∷ []; revoked = "fs.read" ∷ [] }

is_allowed-set_mode_example : is_allowed (set_mode internal "universal").1 "net.raw" ≡ (
    (within (lookup "net.raw" capability_tier) 1
      || (not (ltb 1 2) && has "net.raw" internal.granted))
    && not (has "net.raw" internal.revoked))
unfolding lookup
is_allowed-set_mode_example = is_allowed-set_mode internal "universal" 2 1 refl refl "net.raw"

-- The switch down has dropped the grant.
set_mode_drops : is_allowed (set_mode internal "universal").1 "net.raw" ≡ false
unfolding is_allowed check has set_mode lookup mode_capabilities union
set_mode_drops = refl

required_mode_least_example :
    (t : ℕ) × (lookup "internal" mode_tier ≡ some t)
    × (has "net.raw" (mode_capabilities "internal") ≡ true)
    × ((m' : String) (t' : ℕ)
        → lookup m' mode_tier ≡ some t'
        → has "net.raw" (mode_capabilities m') ≡ true
        → t ≤ t')
unfolding required_mode first_mode lookup assign insert difference union has
required_mode_least_example = required_mode_least "net.raw" "internal" refl
