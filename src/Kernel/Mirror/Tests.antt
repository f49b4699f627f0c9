-- ===== src/Kernel/Mirror/Tests.antt =====
-- Runs of kernel/mirror.py's enforcer.
use aura_aioscpu.Prelude.{string_eq, nat_eq, All, has, lookup, ◌≡◌, refl, none, some, [], ◌∷◌}
use aura_aioscpu.Prelude.Text.{replace, contains_char}
use aura_aioscpu.Kernel.Mirror.{
  Bridge, alternative, is_supported, supported, find, has_capability, enforce,
}
use aura_aioscpu.Kernel.Mirror.Boundary.{HasNoDot, find-HasNoDot}

abbrev bridge : Bridge
bridge = record {
  host_type = "linux";
  capabilities = "fs_write" ∷ "net_connect" ∷ "proc_spawn" ∷ [];
}

enforce_write : enforce "fs.write" "host" (some bridge) ≡ none
unfolding enforce has_capability has replace
enforce_write = refl

-- The bridge can write files, but the alternative that needs it is asked for under another name.
find_chmod : find "fs.chmod" (some bridge) ≡ []
unfolding find supported lookup is_supported has
find_chmod = refl

find_listen :
    find "net.listen" (some bridge)
    ≡ alternative "proc.spawn + socat" "Spawn socat to bridge stdio to a network port if available"
        "proc_spawn"
      ∷ []
unfolding find supported lookup is_supported has
find_listen = refl

find-HasNoDot_example : All (λ alt. HasNoDot alt.requires) (find "net.listen" (some bridge))
unfolding contains_char
find-HasNoDot_example = find-HasNoDot "net.listen" bridge (refl, (refl, (refl, tt)))
