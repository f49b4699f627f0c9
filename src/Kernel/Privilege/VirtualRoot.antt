-- ===== src/Kernel/Privilege/VirtualRoot.antt =====
-- Virtual root in kernel/privilege.py: `execute_as_virtual_root` and its audit entries.
use mathlib.Core.List.{append_assoc}
use aura_aioscpu.Prelude.{
  string_eq, nat_eq, has, Outcome, ok, raise, String, ◌≡◌, Bool, true, false, [], ◌∷◌, ◌++◌, arith,
}
use aura_aioscpu.Kernel.Privilege.{
  virtual_root_caps, AuditDenial, nothing, execution_error, AuraPrivilege, audit, virtual_entry,
  PrivilegeError, not_virtual, failed, execute_as_virtual_root,
}

-- What the caller of `execute_as_virtual_root` gets from what `fn` did.
abbrev pub passed_on : Outcome String String → Outcome PrivilegeError String
passed_on (ok result) = ok result
passed_on (raise m) = raise (failed m)

abbrev pub returned : Outcome String String → Bool
returned (ok _) = true
returned (raise _) = false

abbrev pub failure : Outcome String String → AuditDenial
failure (ok _) = nothing
failure (raise m) = execution_error m

-- Inside the virtual-root set, what `fn` does is passed on, and the journal gets two entries: one from
-- before the call, and one that says how the call ended.
execute_as_virtual_root_inside :
    (capability description : String) (fn : Outcome String String) (p : AuraPrivilege)
    → has capability virtual_root_caps ≡ true
    → let (answer, after) = execute_as_virtual_root capability fn description p in
      (answer ≡ passed_on fn)
      × (after.journal
          ≡ p.journal
            ++ virtual_entry capability description false nothing
              ∷ virtual_entry capability description (returned fn) (failure fn)
              ∷ [])
unfolding execute_as_virtual_root audit
execute_as_virtual_root_inside capability description (ok out) p h = (
  ground arith,
  ground (
    arith,
    append_assoc p.journal (virtual_entry capability description false nothing ∷ [])
        (virtual_entry capability description true nothing ∷ []),
  ),
)
execute_as_virtual_root_inside capability description (raise m) p h = (
  ground arith,
  ground (
    arith,
    append_assoc p.journal (virtual_entry capability description false nothing ∷ [])
        (virtual_entry capability description false (execution_error m) ∷ []),
  ),
)

-- Outside it nothing is run, and nothing is audited or changed.
pub execute_as_virtual_root_outside :
    (capability description : String) (fn : Outcome String String) (p : AuraPrivilege)
    → has capability virtual_root_caps ≡ false
    → execute_as_virtual_root capability fn description p ≡ (raise not_virtual, p)
unfolding execute_as_virtual_root
execute_as_virtual_root_outside capability description fn p h = ground arith
