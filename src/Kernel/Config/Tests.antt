-- ===== src/Kernel/Config/Tests.antt =====
-- Runs of kernel/config.py: defaults, a second file, and the environment.
use aura_aioscpu.Prelude.{
  if◌then◌else◌, string_eq, nat_eq, ◌==◌, ok, String, ◌≡◌, refl, inl, none, some, List, [], ◌∷◌,
}
use aura_aioscpu.Prelude.Text.{translate, lower_text, split_once, remove_prefix, contains_char}
use aura_aioscpu.Kernel.Config.{
  leaf, object, Members, end, member, find, put, deep_merge, Literals, is_one_of, parse_env_val,
  env_target, override_one, apply_env_overrides,
}
use aura_aioscpu.Kernel.Config.Merge.{IsDict, IsJson, walk, deep_merge_wins}
use aura_aioscpu.Kernel.Config.Environment.{Keeps, apply_env_overrides-Keeps}

abbrev literals : Literals String
literals = record {
  boolean = λ b. if b then "true" else "false";
  int = λ n. "int";
  number = λ s. if s == "77" then some "77." else none;
  text = λ s. s;
}

abbrev kernel : Members String
kernel = member "tick_interval_ms" (leaf "16") (member "max_task_queue" (leaf "1000") end)

abbrev defaults : Members String
defaults =
    member "kernel" (object kernel)
      (member "log_rotation" (object (member "count" (leaf "3") end)) end)

abbrev user : Members String
user = member "kernel" (object (member "tick_interval_ms" (leaf "50") end)) end

user-IsDict : IsDict user
unfolding IsDict IsJson find
user-IsDict = (refl, (refl, tt, tt), tt)

abbrev env : List (String × String)
env =
    ("AURA_CFG_KERNEL_TICK_INTERVAL_MS", "77")
    ∷ ("AURA_CFG_LOG_ROTATION_COUNT", "9")
    ∷ ("HOME", "/")
    ∷ ("AURA_CFG_KERNEL_MAX_TASK_QUEUE", "1")
    ∷ []

-- The number 1 is read as a truth value.
env_result :
    apply_env_overrides literals env defaults
    ≡ ok (
        member "kernel"
          (object
            (member "tick_interval_ms" (leaf "77.") (member "max_task_queue" (leaf "true") end)))
          (member "log_rotation" (object (member "count" (leaf "3") end)) end))
unfolding apply_env_overrides env_target remove_prefix split_once lower_text translate override_one
    find put parse_env_val is_one_of
env_result = refl

deep_merge_wins_example :
    walk ("kernel" ∷ "tick_interval_ms" ∷ []) (some (object (deep_merge defaults user)))
    ≡ some (leaf "50")
unfolding walk find
deep_merge_wins_example =
    deep_merge_wins defaults user ("kernel" ∷ "tick_interval_ms" ∷ []) "50" user-IsDict refl

apply_env_overrides-Keeps_example :
    Keeps "log_rotation" defaults (apply_env_overrides literals env defaults)
unfolding contains_char
apply_env_overrides-Keeps_example =
    apply_env_overrides-Keeps literals env defaults "log_rotation" (inl refl)
