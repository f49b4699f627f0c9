-- ===== src/Kernel/Privilege/Escalation.antt =====
-- Host escalation in kernel/privilege.py: who gets it, what it changes, and what is audited.
use aura_aioscpu.Kernel.Api.Gate.{is_allowed-grant_capability}
use aura_aioscpu.Kernel.Api.{KernelApi, grant_capability, handle}
use aura_aioscpu.Prelude.{
  if◌then◌else◌, if_ind, string_eq, nat_eq, has, difference, union, All-has, lookup, insert,
  has_key, String, ◌≡◌, refl, ◌⊎◌, inl, inr, Bool, true, false, not, ◌||◌, Option, none, some, [],
  ◌∷◌, ◌++◌, arith,
}
use aura_aioscpu.Kernel.Override.Requests.{
  Bridge, CommandOverrideLayer, overrideable_actions, Inputs,
}
use aura_aioscpu.Kernel.Override.{interactive_confirm, new_request, request_override}
use aura_aioscpu.Kernel.Override.Guard.{IsSafe, approved_iff}
use aura_aioscpu.Kernel.Privilege.{
  host_escalation_eligible, permanently_forbidden, AuditDenial, nothing, forbidden, not_eligible,
  bridge_refused, no_col, AuraPrivilege, audit, bridge_allows, host_entry, host_arguments,
  denial_or_declined, grant_through, settle_escalation, ask_override, request_host_escalation,
}
use aura_aioscpu.Kernel.Permissions.Tiers.{assign, capability_tier}
use aura_aioscpu.Kernel.Permissions.{is_allowed}
use aura_aioscpu.Prelude.Text.{is_space, all_chars}

-- The escalations that can ever be approved: those on the lists of both layers.
both_lists :
    (c : String)
    → has c host_escalation_eligible ≡ true
    → has c overrideable_actions ≡ true
    → (c ≡ "net.listen") ⊎ ((c ≡ "net.raw") ⊎ (c ≡ "fs.mount_bind"))
unfolding has
both_lists c h k =
    All-has
      (λ x.
        has x overrideable_actions ≡ true
        → (x ≡ "net.listen") ⊎ ((x ≡ "net.raw") ⊎ (x ≡ "fs.mount_bind")))
      host_escalation_eligible
      (
        λ _. inl refl,
        (
          λ _. inr (inl refl),
          (λ _. inr (inr refl), (λ e. cc, (λ e. cc, (λ e. cc, (λ e. cc, tt))))),
        ),
      )
      c h k

-- The permission model knows every capability that can be escalated.
eligible_known :
    (c : String) → has c host_escalation_eligible ≡ true → has_key c capability_tier ≡ true
unfolding lookup assign insert difference union has
eligible_known =
    All-has (λ x. has_key x capability_tier ≡ true) host_escalation_eligible
      (refl, (refl, (refl, (refl, (refl, (refl, (refl, tt)))))))

module _ (capability reason : String) (confirm : Bool) (inputs : Inputs) where
  ask_override_approved :
      (col : Option CommandOverrideLayer) (p : AuraPrivilege)
      → (ask_override capability reason confirm inputs col p).0 ≡ true
      → (has capability overrideable_actions ≡ true)
        × ((confirm || interactive_confirm inputs.answer) ≡ true)
  unfolding ask_override settle_escalation host_arguments
  ask_override_approved none p h = cc
  ask_override_approved (some col) p h =
      let (safe, consent) =
        (approved_iff col (host_arguments capability reason confirm) inputs).0 (ground arith) in
      let listed : has (new_request (host_arguments capability reason confirm) inputs).action
            overrideable_actions
          ≡ true =
        safe.listed in
      (unfold new_request in listed, consent)

  -- What the override layer and the kernel API leave of the manager.
  ask_override_refused :
      (col : Option CommandOverrideLayer) (p : AuraPrivilege)
      → (ask_override capability reason confirm inputs col p).0 ≡ false
      → let after = (ask_override capability reason confirm inputs col p).1 in
        (after.api ≡ p.api) × (after.host_escalations ≡ p.host_escalations)
  unfolding ask_override settle_escalation audit
  ask_override_refused none p h = (refl, refl)
  ask_override_refused (some col) p h = ground arith

  ask_override_granted :
      (col : Option CommandOverrideLayer) (p : AuraPrivilege) (api : KernelApi)
      → has_key capability capability_tier ≡ true
      → p.api ≡ some api
      → (ask_override capability reason confirm inputs col p).0 ≡ true
      → let after = (ask_override capability reason confirm inputs col p).1 in
        (new : KernelApi) × (after.api ≡ some new)
        × (is_allowed new.permissions capability ≡ true)
        × (after.host_escalations
            ≡ p.host_escalations ++ record { capability = capability; reason = reason } ∷ [])
  unfolding ask_override settle_escalation audit grant_through
  ask_override_granted none p api known e h = cc
  ask_override_granted (some col) p api known e h = (
    (handle (grant_capability capability) api).1,
    ground arith,
    is_allowed-grant_capability capability api known,
    ground arith,
  )

  -- One audit entry, about this capability, with the answer that the caller gets.
  ask_override_audited :
      (col : Option CommandOverrideLayer) (p : AuraPrivilege)
      → let (answer, after) = ask_override capability reason confirm inputs col p in
        (d : AuditDenial) × (after.journal
          ≡ p.journal ++ host_entry capability reason answer d ∷ [])
  unfolding ask_override settle_escalation audit
  ask_override_audited none p = (no_col, refl)
  ask_override_audited (some col) p =
      let result = (request_override col (host_arguments capability reason confirm) inputs).0 in
      (if result.approved then nothing else denial_or_declined result.denial_reason, ground arith)

ask_override-reason :
    (capability reason reason' : String) (confirm : Bool) (inputs : Inputs)
    (col : Option CommandOverrideLayer) (p : AuraPrivilege)
    → (ask_override capability reason confirm inputs col p).0 ≡ true
    → (ask_override capability reason' confirm inputs col p).0 ≡ true
unfolding ask_override settle_escalation host_arguments new_request all_chars is_space
ask_override-reason capability reason reason' confirm inputs none p h = h
ask_override-reason capability reason reason' confirm inputs (some col) p h =
    let (safe, consent) =
      (approved_iff col (host_arguments capability reason confirm) inputs).0 (ground arith) in
    let again : IsSafe col.guard_bridge
        (new_request (host_arguments capability reason' confirm) inputs) =
      record {
        listed = safe.listed;
        supported = safe.supported;
        unprotected = safe.unprotected;
        justified = refl;
      } in
    let granted =
      (approved_iff col (host_arguments capability reason' confirm) inputs).1 (again, consent) in
    ground arith

module _ (capability reason : String) (confirm : Bool) (host : Option Bridge) (inputs : Inputs)
    (p : AuraPrivilege) where
  -- An escalation is approved only for one of three capabilities, which the host has, and only if it
  -- is forced or the operator confirms it.
  pub request_host_escalation_approved :
      (request_host_escalation capability reason confirm host inputs p).0 ≡ true
      → ((capability ≡ "net.listen") ⊎ ((capability ≡ "net.raw") ⊎ (capability ≡ "fs.mount_bind")))
        × (bridge_allows host capability ≡ true)
        × ((confirm || interactive_confirm inputs.answer) ≡ true)
  unfolding request_host_escalation
  request_host_escalation_approved h =
      let (listed, consent) =
        ask_override_approved capability reason confirm inputs p.col p (ground arith) in
      (both_lists capability (ground arith) listed, ground arith, consent)

  -- A refused escalation changes neither the permissions nor the list of escalations.
  pub request_host_escalation_refused :
      (request_host_escalation capability reason confirm host inputs p).0 ≡ false
      → let after = (request_host_escalation capability reason confirm host inputs p).1 in
        (after.api ≡ p.api) × (after.host_escalations ≡ p.host_escalations)
  unfolding request_host_escalation audit
  request_host_escalation_refused h =
      ground (arith, ask_override_refused capability reason confirm inputs p.col p)

  -- Each request leaves one entry in the journal, about this capability and with the answer given.
  request_host_escalation_audited :
      let (answer, after) = request_host_escalation capability reason confirm host inputs p in
      (d : AuditDenial) × (after.journal ≡ p.journal ++ host_entry capability reason answer d ∷ [])
  unfolding request_host_escalation audit
  request_host_escalation_audited =
      let Audited = λ (a : Bool × AuraPrivilege).
        (d : AuditDenial) × (a.1.journal ≡ p.journal ++ host_entry capability reason a.0 d ∷ []) in
      if_ind Audited (has capability permanently_forbidden) (λ _. (forbidden, refl))
        (λ _.
          if_ind Audited (not (has capability host_escalation_eligible)) (λ _. (not_eligible, refl))
            (λ _.
              if_ind Audited (not (bridge_allows host capability)) (λ _. (bridge_refused, refl))
                (λ _. ask_override_audited capability reason confirm inputs p.col p)))

  -- With a kernel API attached, an approved escalation is granted: the capability is allowed afterwards, and is listed.
  request_host_escalation_granted :
      (api : KernelApi)
      → p.api ≡ some api
      → (request_host_escalation capability reason confirm host inputs p).0 ≡ true
      → let after = (request_host_escalation capability reason confirm host inputs p).1 in
        (new : KernelApi) × (after.api ≡ some new)
        × (is_allowed new.permissions capability ≡ true)
        × (after.host_escalations
            ≡ p.host_escalations ++ record { capability = capability; reason = reason } ∷ [])
  unfolding request_host_escalation
  request_host_escalation_granted api e h =
      let (new, same, allowed, listed) =
        ask_override_granted capability reason confirm inputs p.col p api
          (eligible_known capability (ground arith)) e (ground arith) in
      (new, ground arith, allowed, ground arith)

  -- Four of the capabilities that count as eligible for escalation are never escalated: the override
  -- layer does not list them.
  request_host_escalation_unlisted :
      has capability host_escalation_eligible ≡ true
      → has capability overrideable_actions ≡ false
      → (request_host_escalation capability reason confirm host inputs p).0 ≡ false
  unfolding request_host_escalation
  request_host_escalation_unlisted eligible unlisted =
      ground (arith, ask_override_approved capability reason confirm inputs p.col p)

-- The justification is not looked at: the answer is the same for every other one, an empty one too.
request_host_escalation-reason :
    (capability reason reason' : String) (confirm : Bool) (host : Option Bridge) (inputs : Inputs)
    (p : AuraPrivilege)
    → (request_host_escalation capability reason confirm host inputs p).0
      ≡ (request_host_escalation capability reason' confirm host inputs p).0
unfolding request_host_escalation
request_host_escalation-reason capability reason reason' confirm host inputs p = ground (
  arith,
  ask_override-reason capability reason reason' confirm inputs p.col p,
  ask_override-reason capability reason' reason confirm inputs p.col p,
)
