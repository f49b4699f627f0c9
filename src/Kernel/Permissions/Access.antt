-- ===== src/Kernel/Permissions/Access.antt =====
-- What `check`, `grant` and `revoke` of kernel/permissions.py decide.
use aura_aioscpu.Prelude.{
  if◌then◌else◌, string_eq, nat_eq, ◌==◌, has, union, has-add, has-discard, has-union,
  has-difference, has_key, String, ◌≡◌, not, ◌&&◌, ◌||◌, arith,
}
use aura_aioscpu.Kernel.Permissions.{
  PermissionModel, grant, revoke, mode_capabilities, check, is_allowed, allowed_capabilities,
}
use aura_aioscpu.Kernel.Permissions.Tiers.{capability_tier}

-- `is_allowed` and `allowed_capabilities` agree on every capability, in every state of the model.
is_allowed-allowed_capabilities :
    (pm : PermissionModel) (c : String) → is_allowed pm c ≡ has c (allowed_capabilities pm)
unfolding is_allowed check allowed_capabilities
is_allowed-allowed_capabilities pm c = ground (
  arith,
  has-difference c (union (mode_capabilities pm.mode) pm.granted) pm.revoked,
  has-union c (mode_capabilities pm.mode) pm.granted,
)

-- Membership tests in place of the chain of early returns.
pub is_allowed_lem :
    (pm : PermissionModel) (c : String)
    → is_allowed pm c
      ≡ ((has c (mode_capabilities pm.mode) || has c pm.granted) && not (has c pm.revoked))
unfolding is_allowed check
is_allowed_lem pm c = ground arith

-- A known capability can be granted: then it is allowed, and every other capability stands as
-- before. A grant of an unknown one raises ValueError and leaves the model unchanged.
pub is_allowed-grant :
    (pm : PermissionModel) (c d : String)
    → is_allowed (grant pm c).1 d
      ≡ (if has_key c capability_tier then d == c || is_allowed pm d else is_allowed pm d)
unfolding grant
is_allowed-grant pm c d = ground (
  arith,
  is_allowed_lem pm d,
  is_allowed_lem (grant pm c).1 d,
  has-add d c pm.granted,
  has-discard d c pm.revoked,
)

-- A revoked capability is denied, also where the mode holds it, and no other one is.
is_allowed-revoke :
    (pm : PermissionModel) (c d : String)
    → is_allowed (revoke pm c) d ≡ (is_allowed pm d && not (d == c))
unfolding revoke
is_allowed-revoke pm c d = ground (
  arith,
  is_allowed_lem pm d,
  is_allowed_lem (revoke pm c) d,
  has-discard d c pm.granted,
  has-add d c pm.revoked,
)
