-- ===== src/Kernel/Config.antt =====
-- The configuration of kernel/config.py: a JSON object of sections. `L` is the type of the JSON values
-- that are not objects.
pub mod Merge
pub mod Environment
mod Tests
use aura_aioscpu.Prelude.Text.{lower_text, split_once, remove_prefix}
use aura_aioscpu.Prelude.{
  if◌then◌else◌, string_eq, nat_eq, ◌==◌, Outcome, ok, raise, ◌>>=◌, ℕ, String, Bool, true, false,
  ◌||◌, Option, none, some, List, [], ◌∷◌,
}

mutual
  pub data Value (L : Type 0) : Type 0 where
    leaf : L → Value L
    object : Members L → Value L

  -- An object: its keys with their values, in order.
  pub data Members (L : Type 0) : Type 0 where
    end : Members L
    member : String → Value L → Members L → Members L

-- `TypeError` and `AttributeError`: a section that is not an object.
pub data ConfigError : Type 0 where
  not_an_object : ConfigError

module _ {L : Type 0} where
  -- `d.get(k)`
  unfoldable pub find : String → Members L → Option (Value L)
  find k end = none
  find k (member j v d) = if j == k then some v else find k d

  -- `d[k] = v`
  unfoldable pub put : String → Value L → Members L → Members L
  put k v end = member k v end
  put k v (member j w d) = if j == k then member j v d else member j w (put k v d)

unfoldable mutual
  pub deep_merge : {L : Type 0} → Members L → Members L → Members L
  deep_merge base end = base
  deep_merge base (member k v d) = deep_merge (put k (merged (find k base) v) base) d

  -- What a key holds after the merge: the two objects merged, or the new value.
  pub merged : {L : Type 0} → Option (Value L) → Value L → Value L
  merged old (leaf l) = leaf l
  merged none (object d) = object d
  merged (some (leaf l)) (object d) = object d
  merged (some (object b)) (object d) = object (deep_merge b d)

module _ {L : Type 0} where
  -- A file is `none` where it is missing, is not read as JSON or is not an object.
  unfoldable pub load_file : Option (Members L) → Members L → Members L
  load_file none cfg = cfg
  load_file (some d) cfg = deep_merge cfg d

  -- The members of a section that may be missing, as `get(section, {})` and `setdefault(section, {})`.
  unfoldable pub members_of : Option (Value L) → Outcome ConfigError (Members L)
  members_of none = ok end
  members_of (some (object d)) = ok d
  members_of (some (leaf l)) = raise not_an_object

  unfoldable pub get : String → String → Members L → Outcome ConfigError (Option (Value L))
  get section key cfg = elim (members_of (find section cfg)) [
    | raise e ↦ raise e
    | ok d ↦ ok (find key d)
  ]

  unfoldable pub set : String → String → Value L → Members L → Outcome ConfigError (Members L)
  set section key v cfg = elim (members_of (find section cfg)) [
    | raise e ↦ raise e
    | ok d ↦ ok (put section (object (put key v d)) cfg)
  ]

-- Assignments in order, up to the first that raises.
unfoldable pub assign_all :
    {L : Type 0}
    → List (String × String × Value L)
    → Members L
    → Outcome ConfigError (Unit {0}) × Members L
assign_all [] cfg = (ok tt, cfg)
assign_all ((section, key, v) ∷ rest) cfg = elim (set section key v cfg) [
  | raise e ↦ (raise e, cfg)
  | ok c ↦ assign_all rest c
]

-- How the values of the environment and the numbers of the source are written as JSON values;
-- `number` is what `int` or `float` reads.
pub record Literals (L : Type 0) : Type 0 where
  pub boolean : Bool → L
  pub int : ℕ → L
  pub number : String → Option L
  pub text : String → L

unfoldable pub is_one_of : String → List String → Bool
is_one_of s [] = false
is_one_of s (t ∷ ts) = s == t || is_one_of s ts

unfoldable pub parse_env_val : {L : Type 0} → Literals L → String → L
parse_env_val literals val =
    if is_one_of (lower_text val) ("true" ∷ "1" ∷ "yes" ∷ [])
    then literals.boolean true
    else (if is_one_of (lower_text val) ("false" ∷ "0" ∷ "no" ∷ [])
        then literals.boolean false
        else elim (literals.number val) [ none ↦ literals.text val | some l ↦ l ])

-- The section and the key that the name of a variable stands for.
unfoldable pub env_target : String → Option (String × String)
env_target env_key = do
  remainder ← remove_prefix "AURA_CFG_" env_key
  split_once b'_' (lower_text remainder)

module _ {L : Type 0} (literals : Literals L) where
  unfoldable pub override_one :
      String → String → String → Members L → Outcome ConfigError (Members L)
  override_one section key val cfg = elim (find section cfg) [
    | none ↦ ok cfg
    | some v ↦ elim v [
      | leaf l ↦ raise not_an_object
      | object d ↦ ok (put section (object (put key (leaf (parse_env_val literals val)) d)) cfg)
    ]
  ]

  -- Over the variables of the environment, in their order.
  unfoldable pub apply_env_overrides :
      List (String × String) → Members L → Outcome ConfigError (Members L)
  apply_env_overrides [] cfg = ok cfg
  apply_env_overrides ((env_key, val) ∷ env) cfg = elim (env_target env_key) [
    | none ↦ apply_env_overrides env cfg
    | some t ↦ elim (override_one t.0 t.1 val cfg) [
      | raise e ↦ raise e
      | ok c ↦ apply_env_overrides env c
    ]
  ]

  -- `__init__` on the default file, the second file and the environment
  unfoldable pub init :
      Option (Members L)
      → Option (Members L)
      → List (String × String)
      → Outcome ConfigError (Members L)
  init defaults extra env = apply_env_overrides env (load_file extra (load_file defaults end))

  abbrev pub or_int : ℕ → Option (Value L) → Value L
  or_int n none = leaf (literals.int n)
  or_int n (some v) = v

  -- The three assignments, in order; where one raises, the configuration that it leaves.
  unfoldable pub apply_mobile_profile : Members L → Outcome ConfigError (Unit {0}) × Members L
  apply_mobile_profile cfg = elim (members_of (find "mobile" cfg)) [
    | raise e ↦ (raise e, cfg)
    | ok mobile ↦
        assign_all
          (("kernel", "tick_interval_ms", or_int 100 (find "tick_interval_ms" mobile))
            ∷ ("hal", "max_memory_mb", or_int 256 (find "max_memory_mb" mobile))
            ∷ ("kernel", "max_task_queue", or_int 256 (find "max_task_queue" mobile))
            ∷ [])
          cfg
  ]
