-- ===== src/Kernel/Permissions/Modes.antt =====
-- The order of the kernel modes in kernel/permissions.py: `_MODE_TIER`, `_TIER_MAP` and `set_mode`.
use aura_aioscpu.Prelude.{
  ltb, leb, if◌then◌else◌, Bool-cases, Option-cases, string_eq, nat_eq, has, lookup, has_key, ok,
  raise, ℕ, ◌≤◌, ◌<◌, String, ◌≡◌, ◌⊎◌, inl, inr, Bool, true, false, not, ◌&&◌, ◌||◌, Option, none,
  some, arith,
}
use aura_aioscpu.Kernel.Permissions.Access.{is_allowed_lem}
use aura_aioscpu.Kernel.Permissions.{
  value_error, permission_denied, PermissionModel, set_mode, mode_capabilities, first_mode,
  required_mode, check, is_allowed,
}
use aura_aioscpu.Kernel.Permissions.Tiers.{
  mode_tier, capability_tier, has-tier_1, has-tier_2, has-tier_3, lookup-capability_tier,
}

-- A capability's tier is at most the given one.
abbrev pub within : Option ℕ → ℕ → Bool
within none t = false
within (some n) t = leb n t

-- `_TIER_MAP` and `_CAPABILITY_TIER` say the same: a mode holds the capabilities whose tier is at
-- most its own.
has-mode_capabilities :
    (c m : String) (t : ℕ)
    → lookup m mode_tier ≡ some t
    → has c (mode_capabilities m) ≡ within (lookup c capability_tier) t
unfolding mode_capabilities lookup
has-mode_capabilities c m t h =
    ground (arith, lookup-capability_tier c, has-tier_1 c, has-tier_2 c, has-tier_3 c)

mode_tier-pos : (m : String) (t : ℕ) → lookup m mode_tier ≡ some t → 1 ≤ t
unfolding lookup
mode_tier-pos m t h = ground arith

abbrev rank_of : Option String → Option ℕ
rank_of none = none
rank_of (some m) = lookup m mode_tier

abbrev when_some : Option String → ℕ → Option ℕ
when_some none t = none
when_some (some m) t = some t

rank_of-first_mode :
    (n : ℕ)
    → rank_of (first_mode n mode_tier)
      ≡ when_some (first_mode n mode_tier) (if leb n 1 then 1 else n)
unfolding first_mode lookup
rank_of-first_mode n = ground arith

first_mode_lem :
    (n : ℕ) (m : String)
    → first_mode n mode_tier ≡ some m
    → lookup m mode_tier ≡ some (if leb n 1 then 1 else n)
first_mode_lem n m h = rw h at (rank_of-first_mode n)

-- The mode that a denial names holds the capability, and every mode that holds it ranks as high.
pub required_mode_least :
    (c m : String)
    → required_mode c ≡ some m
    → (t : ℕ) × (lookup m mode_tier ≡ some t)
      × (has c (mode_capabilities m) ≡ true)
      × ((m' : String) (t' : ℕ)
          → lookup m' mode_tier ≡ some t'
          → has c (mode_capabilities m') ≡ true
          → t ≤ t')
unfolding required_mode
required_mode_least c m h = elim (Option-cases (lookup c capability_tier)) [
  | inl unknown ↦ cc
  | inr (n, tier) ↦
      let t : ℕ = if leb n 1 then 1 else n in
      let rank : lookup m mode_tier ≡ some t = first_mode_lem n m (rw (tier, required_mode) at h) in
      (
        t,
        rank,
        ground (arith, has-mode_capabilities c m t rank),
        λ m' t' rank' held.
            ground (arith, has-mode_capabilities c m' t' rank', mode_tier-pos m' t' rank'),
      )
]

-- `set_mode` with an unknown mode raises ValueError and changes nothing.
pub set_mode_unknown :
    (pm : PermissionModel) (m : String)
    → has_key m mode_tier ≡ false
    → set_mode pm m ≡ (raise value_error, pm)
unfolding set_mode
set_mode_unknown pm m h = ground arith

module _ (pm : PermissionModel) (m : String) (old new : ℕ)
    (valid : lookup pm.mode mode_tier ≡ some old) (known : lookup m mode_tier ≡ some new) where
  set_mode_known : set_mode pm m ≡ (ok tt, (set_mode pm m).1)
  unfolding set_mode
  set_mode_known = ground arith

  -- After a switch between known modes, exactly this is allowed: the capabilities of the tiers up to that
  -- of the new mode and, unless the switch goes down, those that had been granted; but nothing that is
  -- revoked.
  pub is_allowed-set_mode :
      (d : String)
      → is_allowed (set_mode pm m).1 d ≡ (
          (within (lookup d capability_tier) new || (not (ltb new old) && has d pm.granted))
          && not (has d pm.revoked))
  unfolding set_mode has
  is_allowed-set_mode d =
      ground (arith, is_allowed_lem (set_mode pm m).1 d, has-mode_capabilities d m new known)

  -- A switch between known modes, to a lower or equal one, allows nothing that was not allowed before.
  set_mode_down :
      new ≤ old → (d : String) → is_allowed (set_mode pm m).1 d ≡ true → is_allowed pm d ≡ true
  set_mode_down down d h =
      ground (
        arith,
        is_allowed-set_mode d,
        is_allowed_lem pm d,
        has-mode_capabilities d pm.mode old valid,
      )

  -- A switch between known modes, to a higher or equal one, keeps everything that was allowed.
  set_mode_up :
      old ≤ new → (d : String) → is_allowed pm d ≡ true → is_allowed (set_mode pm m).1 d ≡ true
  set_mode_up up d h =
      ground (
        arith,
        is_allowed-set_mode d,
        is_allowed_lem pm d,
        has-mode_capabilities d pm.mode old valid,
      )

required_mode-none : (c : String) → required_mode c ≡ none → has_key c capability_tier ≡ false
unfolding required_mode
required_mode-none c h = ground (arith, lookup-capability_tier c)

-- What `check` raises: the capability and the mode that it was asked in. The mode that it says is
-- needed ranks above the current one and holds the capability, and no mode that holds it ranks
-- lower. It names none if the capability is revoked or unknown.
check-permission_denied :
    (pm : PermissionModel) (c c' md : String) (required : Option String) (old : ℕ)
    → lookup pm.mode mode_tier ≡ some old
    → check pm c ≡ raise (permission_denied c' md required)
    → (c' ≡ c)
      × (md ≡ pm.mode)
      × ((required ≡ none) × ((has c pm.revoked ≡ true) ⊎ (has_key c capability_tier ≡ false))
          ⊎ ((m : String) × (t : ℕ) × (required ≡ some m)
              × (lookup m mode_tier ≡ some t)
              × (old < t)
              × (has c (mode_capabilities m) ≡ true)
              × ((m' : String) (t' : ℕ)
                  → lookup m' mode_tier ≡ some t'
                  → has c (mode_capabilities m') ≡ true
                  → t ≤ t')))
unfolding check
check-permission_denied pm c c' md required old valid h = elim (Bool-cases (has c pm.revoked)) [
  | inl gone ↦ (ground arith, ground arith, inl (ground arith, inl gone))
  | inr kept ↦ elim (Option-cases required) [
    | inl nothing ↦
        (ground arith, ground arith, inl (nothing, inr (required_mode-none c (ground arith))))
    | inr (m, named) ↦
        let (t, rank, held, least) = required_mode_least c m (ground arith) in
        (
          ground arith,
          ground arith,
          inr (
            m,
            t,
            named,
            rank,
            ground (
              arith,
              has-mode_capabilities c m t rank,
              has-mode_capabilities c pm.mode old valid,
            ),
            held,
            least,
          ),
        )
  ]
]
