-- ===== src/Kernel/Config/Environment.antt =====
-- The overrides of kernel/config.py from the environment.
use aura_aioscpu.Kernel.Config.Merge.{find-put}
use mathlib.Core.Path.{subst}
use Prim.Native.Char.{Char, code}
use aura_aioscpu.Prelude.{
  nat_beq, Bool-cases, Option-cases, if_ind, string_eq, nat_eq, ◌==◌, ==_iff, Outcome, ok, raise,
  Outcome-cases, Returns, >>=-Returns, Returns_some, String, ◌≡◌, refl, sym, ap, ◌∙◌, ◌⊎◌, inl, inr,
  true, false, Option, none, some, List, [], ◌∷◌, arith,
}
use aura_aioscpu.Prelude.Text.{lower_text, split_once, remove_prefix, contains_char}
use aura_aioscpu.Kernel.Config.{
  leaf, object, Members, ConfigError, find, put, Literals, parse_env_val, env_target, override_one,
  apply_env_overrides,
}

-- A section's name does not hold the separator.
abbrev IsPlain : String × String → Type 0
IsPlain t = contains_char b'_' t.0 ≡ false

cons-IsPlain :
    (c : Char) (o : Option (String × String))
    → nat_beq (code c) b'_' ≡ false
    → Returns IsPlain o
    → Returns IsPlain (elim o as (λ _. Option (String × String)) [
      | none ↦ none
      | some parts ↦ some (String.◌∷◌ c parts.0, parts.1)
    ])
unfolding contains_char
cons-IsPlain c none other h = tt
cons-IsPlain c (some parts) other h = rw (other) h

split_once-IsPlain : (s : String) → Returns IsPlain (split_once b'_' s)
unfolding split_once contains_char
split_once-IsPlain String.[] = tt
split_once-IsPlain (String.◌∷◌ c s) =
    if_ind (Returns IsPlain) (nat_beq (code c) b'_') (λ _. refl)
      (λ other. cons-IsPlain c (split_once b'_' s) other (split_once-IsPlain s))

env_target-IsPlain : (env_key : String) → Returns IsPlain (env_target env_key)
unfolding env_target
env_target-IsPlain env_key =
    >>=-Returns IsPlain (remove_prefix "AURA_CFG_" env_key) _
      (λ rest. split_once-IsPlain (lower_text rest))

-- What the overrides leave of a section, where they do not raise.
abbrev pub Keeps : {L : Type 0} → String → Members L → Outcome ConfigError (Members L) → Type 0
Keeps s cfg (raise e) = Unit
Keeps s cfg (ok c) = find s c ≡ find s cfg

-- No variable of the environment reaches the section.
abbrev pub IsOutOfReach : {L : Type 0} → String → Members L → Type 0
IsOutOfReach s cfg = (contains_char b'_' s ≡ true) ⊎ (find s cfg ≡ none)

module _ {L : Type 0} (literals : Literals L) where
  assign_keeps :
      (s section key val : String) (d cfg : Members L)
      → contains_char b'_' section ≡ false
      → find section cfg ≡ some (object d)
      → IsOutOfReach s cfg
      → find s (put section (object (put key (leaf (parse_env_val literals val)) d)) cfg)
        ≡ find s cfg
  assign_keeps s section key val d cfg plain found reach =
      find-put s section _ cfg ∙ elim (Bool-cases (section == s)) [
        | inr other ↦ rw (other) refl
        | inl same ↦
            let e : section ≡ s = (==_iff section s).0 same in
            elim reach [
              | inl separated ↦
                  let clash : contains_char b'_' s ≡ false =
                    subst (λ k. contains_char b'_' k ≡ false) e plain in
                  ground (arith, clash, separated)
              | inr missing ↦
                  let clash : some (object d) ≡ none =
                    sym found ∙ ap (λ k. find k cfg) e ∙ missing in
                  cc
            ]
      ]

  override_one-Keeps :
      (s section key val : String) (cfg : Members L)
      → contains_char b'_' section ≡ false
      → IsOutOfReach s cfg
      → Keeps s cfg (override_one literals section key val cfg)
  unfolding override_one
  override_one-Keeps s section key val cfg plain reach = elim (Option-cases (find section cfg)) [
    | inl missing ↦ rw (missing, override_one) refl
    | inr (leaf l, found) ↦ rw (found, override_one) tt
    | inr (object d, found) ↦
        rw (found, override_one) (assign_keeps s section key val d cfg plain found reach)
  ]

  after_override :
      (s : String) (cfg c : Members L)
      → find s c ≡ find s cfg
      → IsOutOfReach s cfg
      → IsOutOfReach s c
  after_override s cfg c e (inl separated) = inl separated
  after_override s cfg c e (inr missing) = inr (e ∙ missing)

  Keeps-trans :
      (s : String) (cfg c : Members L) (o : Outcome ConfigError (Members L))
      → find s c ≡ find s cfg
      → Keeps s c o
      → Keeps s cfg o
  Keeps-trans s cfg c (raise e) h k = tt
  Keeps-trans s cfg c (ok d) h k = k ∙ h

  -- Where the overrides do not raise, the variables of the environment have added no section, and they
  -- have not changed a section whose name holds an underscore, whatever they are called.
  pub apply_env_overrides-Keeps :
      (env : List (String × String)) (cfg : Members L) (s : String)
      → (contains_char b'_' s ≡ true) ⊎ (find s cfg ≡ none)
      → Keeps s cfg (apply_env_overrides literals env cfg)
  unfolding apply_env_overrides
  apply_env_overrides-Keeps [] cfg s reach = refl
  apply_env_overrides-Keeps ((name, val) ∷ env) cfg s reach =
      elim (Option-cases (env_target name)) [
        | inl no_target ↦
            rw (no_target, apply_env_overrides) (apply_env_overrides-Keeps env cfg s reach)
        | inr (t, target) ↦
            let plain = Returns_some IsPlain (env_target name) t target (env_target-IsPlain name) in
            let first = override_one-Keeps s t.0 t.1 val cfg plain reach in
            rw (target, apply_env_overrides)
              (elim (Outcome-cases (override_one literals t.0 t.1 val cfg)) [
                | inr (e, raises) ↦ rw (raises) tt
                | inl (c, returns) ↦
                    let same : find s c ≡ find s cfg = subst (Keeps s cfg) returns first in
                    rw (returns) (
                      Keeps-trans s cfg c (apply_env_overrides literals env c) same
                        (apply_env_overrides-Keeps env c s (after_override s cfg c same reach)))
              ])
      ]
