-- ===== src/Kernel/Mirror.antt =====
-- The enforcer of kernel/mirror.py at the host boundary. A bridge is the type of its host and the
-- capabilities that it names.
pub mod Boundary
mod Tests
use Prim.Native.Char.{Char}
use aura_aioscpu.Prelude.{
  if◌then◌else◌, string_eq, nat_eq, ◌==◌, has, lookup, String, Bool, ◌||◌, Option, none, some, List,
  [], ◌∷◌,
}
use aura_aioscpu.Prelude.Text.{is_empty, replace}

pub record Alternative : Type 0 where
  pub action : String
  pub description : String
  pub requires : String

pub record Bridge : Type 0 where
  pub host_type : String
  pub capabilities : List String

pub data Reason : Type 0 where
  no_bridge : Reason
  not_available : (bridge_cap : String) → Reason

pub record HostDenial : Type 0 where
  pub action : String
  pub reason : Reason
  pub host_type : String
  pub alternatives : List Alternative

abbrev pub alternative : String → String → String → Alternative
alternative action description requires = record {
  action = action;
  description = description;
  requires = requires;
}

abbrev pub alt_map : List (String × List Alternative)
alt_map =
    (
      "net.listen",
      alternative "net.connect + reverse-tunnel"
            "Use an outbound reverse tunnel to a relay instead of listening" "net.connect"
          ∷ alternative "proc.spawn + socat"
              "Spawn socat to bridge stdio to a network port if available" "proc_spawn"
          ∷ [],
    )
    ∷ (
      "fs.mount_bind",
      alternative "overlay in rootfs/overlay/"
            "Write changes to rootfs/overlay/ instead of mounting over system/" "fs.write"
          ∷ alternative "FUSE userspace mount"
              "Use fusepy or a FUSE library if available on this host" "proc_spawn"
          ∷ [],
    )
    ∷ (
      "fs.chmod",
      alternative "copy-then-write" "Copy file to rootfs/user/ (writable) and work there instead"
            "fs.write"
          ∷ [],
    )
    ∷ (
      "net.raw",
      alternative "net.connect socket"
            "Use standard TCP/UDP sockets (net.connect) as an alternative" "net.connect"
          ∷ [],
    )
    ∷ (
      "hal.project",
      alternative "virtual device in rootfs/aura/"
            "Project a virtual device descriptor into rootfs/aura/ instead" "fs.write"
          ∷ [],
    )
    ∷ (
      "hal.teardown",
      alternative "rootfs virtual device cleanup" "Remove the virtual device file from rootfs/aura/"
            "fs.write"
          ∷ [],
    )
    ∷ (
      "device.write",
      alternative "virtual device in rootfs/aura/devices/"
            "Write device state to the virtual device registry inside rootfs" "fs.write"
          ∷ [],
    )
    ∷ []

abbrev pub candidates : String → List Alternative
candidates action = elim (lookup action alt_map) [ none ↦ [] | some alts ↦ alts ]

-- `not alt.requires or alt.requires in available`
unfoldable pub is_supported : List String → Alternative → Bool
is_supported available alt = is_empty alt.requires || has alt.requires available

unfoldable pub supported : List String → List Alternative → List Alternative
supported available [] = []
supported available (alt ∷ alts) =
    if is_supported available alt then alt ∷ supported available alts else supported available alts

-- `LegalAlternativeFinder.find`
unfoldable pub find : String → Option Bridge → List Alternative
find blocked_action none = candidates blocked_action
find blocked_action (some bridge) = supported bridge.capabilities (candidates blocked_action)

unfoldable pub has_capability : String → Bridge → Bool
has_capability cap bridge = has cap bridge.capabilities

unfoldable pub deny : String → Bridge → HostDenial
deny action bridge = record {
  action = action;
  reason = not_available (replace "." "_" action);
  host_type = bridge.host_type;
  alternatives = find action (some bridge);
}

-- `none`: the action is allowed.
unfoldable pub enforce : String → String → Option Bridge → Option HostDenial
enforce action privilege_tier bridge =
    if privilege_tier == "virtual_root" then none else elim bridge [
      | none ↦
          some (record {
            action = action;
            reason = no_bridge;
            host_type = "unknown";
            alternatives = [];
          })
      | some b ↦ if has_capability (replace "." "_" action) b then none else some (deny action b)
    ]
