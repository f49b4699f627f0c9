-- ===== src/Kernel/Mirror/Boundary.antt =====
-- When kernel/mirror.py denies an action, and which alternatives it names.
use aura_aioscpu.Prelude.{
  Bool-cases, if_ind, string_eq, nat_eq, ◌==◌, All, has, All-has, Returns, Returns_some, String,
  ◌≡◌, refl, inl, inr, Bool, true, false, ◌||◌, Option, none, some, List, [], ◌∷◌, arith,
}
use aura_aioscpu.Prelude.Text.{is_empty, replace, contains_char}
use aura_aioscpu.Kernel.Mirror.{
  Alternative, Bridge, HostDenial, candidates, is_supported, supported, find, has_capability, deny,
  enforce,
}

-- The action is inside the system, or the bridge has its capability.
unfoldable pub is_permitted : String → String → Option Bridge → Bool
is_permitted action privilege_tier none = privilege_tier == "virtual_root"
is_permitted action privilege_tier (some b) =
    privilege_tier == "virtual_root" || has (replace "." "_" action) b.capabilities

abbrev pub is_allowed : Option HostDenial → Bool
is_allowed none = true
is_allowed (some d) = false

-- An action is allowed exactly when its tier is the virtual root, or there is a bridge that has the
-- capability of the action's name, with underscores for dots.
is_allowed-enforce :
    (action privilege_tier : String) (bridge : Option Bridge)
    → is_allowed (enforce action privilege_tier bridge) ≡ is_permitted action privilege_tier bridge
unfolding enforce is_permitted has_capability
is_allowed-enforce action privilege_tier none =
    ground (arith, Bool-cases (privilege_tier == "virtual_root"))
is_allowed-enforce action privilege_tier (some b) = ground (
  arith,
  Bool-cases (privilege_tier == "virtual_root"),
  Bool-cases (has (replace "." "_" action) b.capabilities),
)

supported-All :
    (P : Alternative → Type 0) (available : List String) (alts : List Alternative)
    → ((alt : Alternative) → is_supported available alt ≡ true → P alt)
    → All P (supported available alts)
unfolding supported
supported-All P available [] h = tt
supported-All P available (alt ∷ alts) h =
    if_ind (All P) (is_supported available alt) (λ e. (h alt e, supported-All P available alts h))
      (λ _. supported-All P available alts h)

-- What a bridge is asked for and what it is given: every alternative that is named for a bridge needs
-- nothing, or a capability that the bridge has.
abbrev pub IsSupported : Bridge → Alternative → Type 0
IsSupported b alt = is_supported b.capabilities alt ≡ true

enforce-Returns :
    (action privilege_tier : String) (b : Bridge)
    → Returns (λ d. All (IsSupported b) d.alternatives) (enforce action privilege_tier (some b))
unfolding enforce deny find
enforce-Returns action privilege_tier b =
    let P : HostDenial → Type 0 = λ d. All (IsSupported b) d.alternatives in
    if_ind (Returns P) (privilege_tier == "virtual_root") (λ _. tt)
      (λ _.
        if_ind (Returns P) (has_capability (replace "." "_" action) b) (λ _. tt)
          (λ _. supported-All (IsSupported b) b.capabilities (candidates action) (λ alt e. e)))

-- A denial by a bridge names only alternatives that need nothing or a capability that the bridge has.
enforce-IsSupported :
    (action privilege_tier : String) (b : Bridge) (d : HostDenial)
    → enforce action privilege_tier (some b) ≡ some d
    → All (IsSupported b) d.alternatives
enforce-IsSupported action privilege_tier b d denied =
    Returns_some (λ z. All (IsSupported b) z.alternatives) (enforce action privilege_tier (some b))
      d denied (enforce-Returns action privilege_tier b)

-- The names of the bridges' capabilities hold no dot, but those of the alternatives do.
abbrev pub HasNoDot : String → Type 0
HasNoDot s = contains_char b'.' s ≡ false

empty-HasNoDot : (s : String) → is_empty s ≡ true → HasNoDot s
unfolding contains_char
empty-HasNoDot String.[] e = refl
empty-HasNoDot (String.◌∷◌ c s) e = cc

is_supported-HasNoDot :
    (b : Bridge) (alt : Alternative)
    → All HasNoDot b.capabilities
    → is_supported b.capabilities alt ≡ true
    → HasNoDot alt.requires
unfolding is_supported
is_supported-HasNoDot b alt plain e = elim (Bool-cases (is_empty alt.requires)) [
  | inl nothing ↦ empty-HasNoDot alt.requires nothing
  | inr named ↦ All-has HasNoDot b.capabilities plain alt.requires (rw (named) at e)
]

-- For a bridge whose capabilities are named without dots, no alternative is named that requires a
-- capability written with a dot.
pub find-HasNoDot :
    (blocked_action : String) (b : Bridge)
    → All HasNoDot b.capabilities
    → All (λ alt. HasNoDot alt.requires) (find blocked_action (some b))
unfolding find
find-HasNoDot blocked_action b plain =
    supported-All (λ alt. HasNoDot alt.requires) b.capabilities (candidates blocked_action)
      (λ alt e. is_supported-HasNoDot b alt plain e)
