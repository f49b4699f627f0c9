-- ===== src/Kernel/Permissions/Invariant.antt =====
-- The invariant of kernel/permissions.py's `PermissionModel`, for every sequence of calls.
use aura_aioscpu.Prelude.{
  string_eq, nat_eq, ==_iff, has, has-add, has-discard, has_key, ok, raise, String, ◌≡◌, ◌≢◌, true,
  false, List, [], ◌∷◌, arith,
}
use aura_aioscpu.Kernel.Permissions.{
  key_error, PermissionModel, Method, validate_mode, init, set_mode, grant, revoke, reset_grants,
}
use aura_aioscpu.Kernel.Permissions.Tiers.{mode_tier, capability_tier}

-- The mode is a known one, only known capabilities are granted, and none is both granted and
-- revoked.
pub record IsValid (pm : PermissionModel) : Type 0 where
  pub mode_known : has_key pm.mode mode_tier ≡ true
  pub granted_known : (c : String) → has c pm.granted ≡ true → has_key c capability_tier ≡ true
  pub disjoint : (c : String) → has c pm.granted ≡ true → has c pm.revoked ≡ false

-- The public methods that change the model.
pub data Call : Type 0 where
  set_mode_call grant_call revoke_call : String → Call
  reset_grants_call : Call

unfoldable pub apply : PermissionModel → Call → Method
apply pm (set_mode_call m) = set_mode pm m
apply pm (grant_call c) = grant pm c
apply pm (revoke_call c) = (ok tt, revoke pm c)
apply pm reset_grants_call = (ok tt, reset_grants pm)

-- A caller goes on after an exception.
unfoldable pub run : PermissionModel → List Call → PermissionModel
run pm [] = pm
run pm (call ∷ calls) = run (apply pm call).1 calls

pub init-IsValid : (m : String) {pm : PermissionModel} → init m ≡ ok pm → IsValid pm
unfolding init validate_mode has
init-IsValid m h = record {
  mode_known = ground arith;
  granted_known = λ c. ground arith;
  disjoint = λ c. ground arith;
}

module _ {pm : PermissionModel} (valid : IsValid pm) where
  set_mode-IsValid : (m : String) → IsValid (set_mode pm m).1
  unfolding set_mode has
  set_mode-IsValid m = record {
    mode_known = ground (arith, valid.mode_known);
    granted_known = λ c. ground (arith, valid.granted_known c);
    disjoint = λ c. ground (arith, valid.disjoint c);
  }

  grant-IsValid : (c : String) → IsValid (grant pm c).1
  unfolding grant
  grant-IsValid c = record {
    mode_known = ground (arith, valid.mode_known);
    granted_known = λ d. ground (arith, valid.granted_known d, has-add d c pm.granted, ==_iff d c);
    disjoint = λ d.
        ground
          (arith, valid.disjoint d, has-add d c pm.granted, has-discard d c pm.revoked, ==_iff d c);
  }

  revoke-IsValid : (c : String) → IsValid (revoke pm c)
  unfolding revoke
  revoke-IsValid c = record {
    mode_known = valid.mode_known;
    granted_known = λ d. ground (arith, valid.granted_known d, has-discard d c pm.granted);
    disjoint =
        λ d. ground (arith, valid.disjoint d, has-discard d c pm.granted, has-add d c pm.revoked);
  }

  reset_grants-IsValid : IsValid (reset_grants pm)
  unfolding reset_grants has
  reset_grants-IsValid = record {
    mode_known = valid.mode_known;
    granted_known = λ d. ground arith;
    disjoint = λ d. ground arith;
  }

-- Each call of a public method keeps the invariant, also one that raises.
pub apply-IsValid : {pm : PermissionModel} → IsValid pm → (call : Call) → IsValid (apply pm call).1
unfolding apply
apply-IsValid valid (set_mode_call m) = set_mode-IsValid valid m
apply-IsValid valid (grant_call c) = grant-IsValid valid c
apply-IsValid valid (revoke_call c) = revoke-IsValid valid c
apply-IsValid valid reset_grants_call = reset_grants-IsValid valid

-- A valid model stays valid under any sequence of calls, those that raise included.
run-IsValid : {pm : PermissionModel} → IsValid pm → (calls : List Call) → IsValid (run pm calls)
unfolding run
run-IsValid valid [] = valid
run-IsValid {pm} valid (call ∷ calls) =
    run-IsValid {pm = (apply pm call).1} (apply-IsValid valid call) calls

-- On a valid model no call raises KeyError: `_MODE_TIER` has the mode.
apply-ne-key_error :
    {pm : PermissionModel} → IsValid pm → (call : Call) → (apply pm call).0 ≢ raise key_error
unfolding apply set_mode grant
apply-ne-key_error valid (set_mode_call m) = ground (arith, valid.mode_known)
apply-ne-key_error valid _ = ground arith
