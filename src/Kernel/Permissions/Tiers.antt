-- ===== src/Kernel/Permissions/Tiers.antt =====
-- The capability tables of kernel/permissions.py, and how the tiers lie in one another.
use aura_aioscpu.Prelude.{
  if◌then◌else◌, string_eq, ==_iff, has, difference, union, has-union, has-difference, lookup,
  insert, lookup-insert, ℕ, String, ◌≡◌, refl, true, none, some, List, [], ◌∷◌, arith,
}

abbrev pub tier_0 : List String
tier_0 =
    "aura.query" ∷ "aura.pulse" ∷ "fs.read" ∷ "event.publish" ∷ "event.subscribe" ∷ "shell.command"
    ∷ "sysinfo.read" ∷ []

abbrev pub tier_1 : List String
tier_1 = union tier_0 (
    "fs.write" ∷ "fs.list" ∷ "net.connect" ∷ "net.send" ∷ "net.recv" ∷ "proc.spawn" ∷ "proc.kill"
    ∷ "service.query" ∷ "log.read" ∷ "job.submit" ∷ "pkg.install" ∷ "pkg.list" ∷ [])

abbrev pub tier_2 : List String
tier_2 = union tier_1 (
    "fs.chmod" ∷ "fs.mount_bind" ∷ "net.listen" ∷ "net.raw" ∷ "sys.info" ∷ "service.start"
    ∷ "service.stop" ∷ "service.register" ∷ "kernel.config_write" ∷ "storage.write"
    ∷ "storage.partition" ∷ "log.write" ∷ "job.cancel" ∷ "model.load" ∷ "model.unload" ∷ [])

abbrev pub tier_3 : List String
tier_3 = union tier_2 (
    "hal.project" ∷ "hal.teardown" ∷ "kernel.mode_switch" ∷ "kernel.patch" ∷ "device.write"
    ∷ "device.project" ∷ "hardware.bind" ∷ "hardware.unbind" ∷ [])

abbrev pub tier_map : List (String × List String)
tier_map = ("universal", tier_1) ∷ ("internal", tier_2) ∷ ("hardware", tier_3) ∷ []

abbrev pub mode_tier : List (String × ℕ)
mode_tier = ("universal", 1) ∷ ("internal", 2) ∷ ("hardware", 3) ∷ []

-- `for _cap in caps: _CAPABILITY_TIER[_cap] = tier`
unfoldable pub assign : ℕ → List String → List (String × ℕ) → List (String × ℕ)
assign tier [] table = table
assign tier (c ∷ caps) table = assign tier caps (insert c tier table)

abbrev pub capability_tier : List (String × ℕ)
capability_tier =
    assign 3 (difference tier_3 tier_2) (
      assign 2 (difference tier_2 tier_1)
        (assign 1 (difference tier_1 tier_0) (assign 0 tier_0 [])))

lookup-assign :
    (c : String) (t : ℕ) (caps : List String) (d : List (String × ℕ))
    → lookup c (assign t caps d) ≡ (if has c caps then some t else lookup c d)
unfolding assign has
lookup-assign c t [] d = refl
lookup-assign c t (x ∷ caps) d =
    ground
      (arith, lookup-assign c t caps (insert x t d), lookup-insert x c t d, ==_iff c x, ==_iff x c)

module _ (c : String) where
  pub has-tier_1 : has c tier_0 ≡ true → has c tier_1 ≡ true
  has-tier_1 h = rw (has-union c tier_0) (rw h refl)

  pub has-tier_2 : has c tier_1 ≡ true → has c tier_2 ≡ true
  has-tier_2 h = rw (has-union c tier_1) (rw h refl)

  pub has-tier_3 : has c tier_2 ≡ true → has c tier_3 ≡ true
  has-tier_3 h = rw (has-union c tier_2) (rw h refl)

  -- The tier that the four loops give a capability: the least table that holds it.
  pub lookup-capability_tier : lookup c capability_tier ≡ (
      if has c tier_0
      then some 0
      else if has c tier_1
      then some 1
      else if has c tier_2
      then some 2
      else if has c tier_3
      then some 3
      else none)
  unfolding lookup
  lookup-capability_tier = ground (
    arith,
    lookup-assign c 3 (difference tier_3 tier_2) (
        assign 2 (difference tier_2 tier_1)
          (assign 1 (difference tier_1 tier_0) (assign 0 tier_0 []))),
    lookup-assign c 2 (difference tier_2 tier_1)
        (assign 1 (difference tier_1 tier_0) (assign 0 tier_0 [])),
    lookup-assign c 1 (difference tier_1 tier_0) (assign 0 tier_0 []),
    lookup-assign c 0 tier_0 [],
    has-difference c tier_3 tier_2,
    has-difference c tier_2 tier_1,
    has-difference c tier_1 tier_0,
    has-tier_1,
    has-tier_2,
    has-tier_3,
  )
