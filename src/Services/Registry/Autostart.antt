-- ===== src/Services/Registry/Autostart.antt =====
-- `start_all_autostart` of services/registry.py: each service with AutoStart is started once.
use mathlib.Core.Path.{subst}
use aura_aioscpu.Prelude.{
  if◌then◌else◌, Bool-cases, Option-cases, if_ind, string_eq, nat_eq, ◌==◌, ==_iff, ==-refl, has,
  has-append, IsUnique, lookup, insert, lookup-insert, lookup-insert_self, has-keys, has_key_found,
  String, ◌≡◌, refl, sym, ap, ◌∙◌, inl, inr, Bool, true, false, ◌||◌, none, some, List, [], ◌∷◌,
  arith,
}
use aura_aioscpu.Prelude.Text.{is_empty}
use aura_aioscpu.Services.Registry.Descriptors.{ServiceDescriptor, RegistryEvent, ServiceRegistry}
use aura_aioscpu.Services.Registry.Order.{order_of, compute_load_order}
use aura_aioscpu.Services.Registry.LoadOrder.{order_of-IsUnique, has-order_of}
use aura_aioscpu.Services.Registry.{
  Host, launch_module, publish_event, set_descriptor, mark_running, mark_failed, start_service,
  note_started, autostart_one, autostart, start_all_autostart,
}

module _ {I F : Type 0} (host : Host I) where
  -- Whether the start of a service succeeds.
  unfoldable pub can_launch : ServiceDescriptor I F → Bool
  can_launch desc =
      is_empty desc.module_path
      || elim (launch_module host desc.module_path) [ none ↦ false | some _ ↦ true ]

  -- The descriptor of a service after its start.
  unfoldable pub launched : String → ServiceDescriptor I F → ServiceDescriptor I F
  launched name desc =
      if is_empty desc.module_path
      then mark_running desc.instance_of (host.clock name) desc
      else elim (launch_module host desc.module_path) [
        | none ↦ mark_failed desc
        | some i ↦ mark_running (some i) (host.clock name) desc
      ]

  publish_registry :
      (e : RegistryEvent) (r : ServiceRegistry I F) → (publish_event e r).registry ≡ r.registry
  unfolding publish_event
  publish_registry e r =
      if_ind (λ (z : ServiceRegistry I F). z.registry ≡ r.registry) r.has_bus (λ _. refl)
        (λ _. refl)

  start_service_registry :
      (name : String) (desc : ServiceDescriptor I F) (r : ServiceRegistry I F)
      → (start_service host name desc r).1.registry ≡ insert name (launched name desc) r.registry
  unfolding start_service launched set_descriptor
  start_service_registry name desc r = elim (Bool-cases (is_empty desc.module_path)) [
    | inl built_in ↦ simp (built_in, start_service, launched) refl
    | inr plain ↦ elim (Option-cases (launch_module host desc.module_path)) [
      | inl fails ↦ simp (plain, fails, start_service, launched) (publish_registry _ _)
      | inr (i, starts) ↦ simp (plain, starts, start_service, launched) (publish_registry _ _)
    ]
  ]

  start_service_result :
      (name : String) (desc : ServiceDescriptor I F) (r : ServiceRegistry I F)
      → (start_service host name desc r).0 ≡ can_launch desc
  unfolding start_service can_launch
  start_service_result name desc r = elim (Bool-cases (is_empty desc.module_path)) [
    | inl built_in ↦ simp (built_in, start_service, can_launch) refl
    | inr plain ↦ elim (Option-cases (launch_module host desc.module_path)) [
      | inl fails ↦ simp (plain, fails, start_service, can_launch) refl
      | inr (i, starts) ↦ simp (plain, starts, start_service, can_launch) refl
    ]
  ]

  other_registry :
      (name other : String) (desc : ServiceDescriptor I F) (r : ServiceRegistry I F)
      → (name == other) ≡ false
      → lookup other (start_service host name desc r).1.registry ≡ lookup other r.registry
  other_registry name other desc r differ =
      ap (lookup other) (start_service_registry name desc r)
      ∙ lookup-insert name other (launched name desc) r.registry
      ∙ rw (differ) refl

  other_started :
      (name other : String) (started : List String) (result : Bool × ServiceRegistry I F)
      → (name == other) ≡ false
      → has other (note_started name started result).0 ≡ has other started
  unfolding has
  other_started name other started result differ =
      if_ind (λ l. has other l ≡ has other started) result.0
        (λ _.
          ground
            (arith, has-append other started (name ∷ []), ==_iff name other, ==_iff other name))
        (λ _. refl)

  -- What one round of the loop does to a service of another name.
  autostart_one_other :
      (name other : String) (s : List String × ServiceRegistry I F)
      → (name == other) ≡ false
      → (lookup other (autostart_one host name s).1.registry ≡ lookup other s.1.registry)
        × (has other (autostart_one host name s).0 ≡ has other s.0)
  unfolding autostart_one
  autostart_one_other name other s differ = elim (Option-cases (lookup name s.1.registry)) [
    | inl absent ↦ simp (absent, autostart_one) (refl, refl)
    | inr (desc, found) ↦
        simp (found, autostart_one)
          (if_ind
            (λ (z : List String × ServiceRegistry I F).
              (lookup other z.1.registry ≡ lookup other s.1.registry)
              × (has other z.0 ≡ has other s.0))
            desc.auto_start
            (λ _. (
              other_registry name other desc s.1 differ,
              other_started name other s.0 (start_service host name desc s.1) differ,
            ))
            (λ _. (refl, refl)))
  ]

  autostart_absent :
      (names : List String) (other : String) (s : List String × ServiceRegistry I F)
      → has other names ≡ false
      → (lookup other (autostart host names s).1.registry ≡ lookup other s.1.registry)
        × (has other (autostart host names s).0 ≡ has other s.0)
  unfolding autostart has
  autostart_absent [] other s h = (refl, refl)
  autostart_absent (n ∷ ns) other s h =
      let first = autostart_one_other n other s (ground (arith, ==_iff n other, ==_iff other n)) in
      let rest = autostart_absent ns other (autostart_one host n s) (ground arith) in
      (rest.0 ∙ first.0, rest.1 ∙ first.1)

  started_self :
      (name : String) (started : List String) (result : Bool × ServiceRegistry I F)
      → has name started ≡ false
      → has name (note_started name started result).0 ≡ result.0
  unfolding has
  started_self name started result fresh = elim (Bool-cases result.0) [
    | inl good ↦ simp (good) ground (arith, has-append name started (name ∷ []), ==-refl name)
    | inr bad ↦ simp (bad) fresh
  ]

  autostart_one_self :
      (name : String) (desc : ServiceDescriptor I F) (s : List String × ServiceRegistry I F)
      → lookup name s.1.registry ≡ some desc
      → desc.auto_start ≡ true
      → has name s.0 ≡ false
      → (lookup name (autostart_one host name s).1.registry ≡ some (launched name desc))
        × (has name (autostart_one host name s).0 ≡ can_launch desc)
  unfolding autostart_one
  autostart_one_self name desc s found auto fresh =
      simp (found, auto, autostart_one)
        (
          ap (lookup name) (start_service_registry name desc s.1)
              ∙ lookup-insert_self name (launched name desc) s.1.registry,
          started_self name s.0 (start_service host name desc s.1) fresh
              ∙ start_service_result name desc s.1,
        )

  autostart_present :
      (names : List String) (name : String) (desc : ServiceDescriptor I F)
      (s : List String × ServiceRegistry I F)
      → IsUnique names
      → has name names ≡ true
      → lookup name s.1.registry ≡ some desc
      → desc.auto_start ≡ true
      → has name s.0 ≡ false
      → (lookup name (autostart host names s).1.registry ≡ some (launched name desc))
        × (has name (autostart host names s).0 ≡ can_launch desc)
  unfolding autostart has IsUnique
  autostart_present [] name desc s u m found auto fresh = cc
  autostart_present (n ∷ ns) name desc s u m found auto fresh = elim (Bool-cases (n == name)) [
    | inl here ↦
        let e = (==_iff n name).0 here in
        let absent : has name ns ≡ false = subst (λ k. has k ns ≡ false) e u.0 in
        let first = autostart_one_self name desc s found auto fresh in
        let rest = autostart_absent ns name (autostart_one host name s) absent in
        subst
          (λ k.
            (lookup name (autostart host ns (autostart_one host k s)).1.registry
              ≡ some (launched name desc))
            × (has name (autostart host ns (autostart_one host k s)).0 ≡ can_launch desc))
          (sym e) (rest.0 ∙ first.0, rest.1 ∙ first.1)
    | inr other ↦
        let first = autostart_one_other n name s other in
        autostart_present ns name desc (autostart_one host n s) u.1
          (ground (arith, ==_iff n name, ==_iff name n)) (first.0 ∙ found) auto (first.1 ∙ fresh)
  ]

  -- After the load order has been computed, `start_all_autostart` starts every service with AutoStart
  -- once: its descriptor is then the one that a start makes of the descriptor that it had, and its name
  -- is in the result exactly when that start succeeds.
  pub start_all_autostart_launches :
      (r : ServiceRegistry I F) (name : String) (desc : ServiceDescriptor I F)
      → lookup name r.registry ≡ some desc
      → desc.auto_start ≡ true
      → let after = start_all_autostart host (compute_load_order r) in
        (lookup name after.1.registry ≡ some (launched name desc))
        × (has name after.0 ≡ can_launch desc)
  unfolding start_all_autostart compute_load_order has
  start_all_autostart_launches r name desc found auto =
      autostart_present (order_of r.registry) name desc ([], compute_load_order r)
        (order_of-IsUnique r.registry)
        (has-order_of r.registry name
          (has-keys name r.registry ∙ has_key_found name desc r.registry found))
        found auto refl
