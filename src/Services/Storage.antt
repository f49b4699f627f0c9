-- ===== src/Services/Storage.antt =====
-- The storage service of services/storage_service.py. A file is an entry under the path that the
-- host makes of the path that is written: which file `.`, `..` and links lead to is the host's. `D` is
-- the type of contents. Directories are left out, and a write that fails changes nothing. What the host
-- answers is a parameter.
pub mod Paths
pub mod Partitions
pub mod Reads
mod Tests
use Prim.Native.Char.{code}
use aura_aioscpu.Prelude.{
  nat_beq, if◌then◌else◌, string_eq, nat_eq, lookup, insert, has_key, Outcome, ok, raise, ℕ, String,
  Bool, true, false, ◌&&◌, ◌||◌, Option, none, some, List, [], ◌∷◌, ◌++◌,
}
use aura_aioscpu.Prelude.Text.{is_empty, concat, lstrip, first_part, starts_with}

-- The partitions, and whether they are writable.
abbrev pub partitions : List (String × Bool)
partitions =
    ("boot", false)
    ∷ ("system", false)
    ∷ ("user", true)
    ∷ ("overlay", true)
    ∷ ("aura", true)
    ∷ ("services", true)
    ∷ ("var", true)
    ∷ ("tmp", true)
    ∷ ("etc", false)
    ∷ ("bin", false)
    ∷ ("home", true)
    ∷ ("mnt", true)
    ∷ []

abbrev pub sd_probes : List (String × List String)
sd_probes =
    ("android", "/storage/sdcard1" ∷ "/storage/extSdCard" ∷ "/sdcard" ∷ "/storage/emulated/0" ∷ [])
    ∷ ("linux", "/media" ∷ "/mnt/sdcard" ∷ "/mnt/sd" ∷ [])
    ∷ ("macos", "/Volumes" ∷ [])
    ∷ ("windows", [])
    ∷ []

pub data ServiceState : Type 0 where
  stopped running : ServiceState

pub data StorageEvent : Type 0 where
  mount_event : (rootfs : String) → (sd_card : Option String) → StorageEvent
  unmount_event : (rootfs : String) → StorageEvent
  write_event : (rel_path : String) → StorageEvent
  sd_mount_event : (sd_path rootfs : String) → StorageEvent

pub record StorageService (D : Type 0) : Type 0 where
  pub rootfs : String
  pub layout_path : String
  pub sd_path : Option String
  pub is_running : Bool
  pub state : ServiceState
  pub files : List (String × D)
  pub has_bus : Bool
  pub published : List StorageEvent

-- The host: the path of the file that a path names, its type, whether a directory can be read, `os.path.abspath`, whether a file can be removed
-- and written, and the text of a layout.
pub record Host (D : Type 0) : Type 0 where
  pub resolve : String → String
  pub host_type : String
  pub is_readable : String → Bool
  pub abspath : String → String
  pub removes : String → Bool
  pub writes : String → Bool
  pub layout : String → D

-- `ValueError`, `FileNotFoundError` and `OSError`.
pub data StorageError : Type 0 where
  unknown_partition no_such_file not_written : StorageError

abbrev pub is_slash : ℕ → Bool
is_slash c = nat_beq c b'/'

unfoldable pub ends_with_slash : String → Bool
ends_with_slash String.[] = false
ends_with_slash (String.◌∷◌ c s) = if is_empty s then is_slash (code c) else ends_with_slash s

abbrev pub is_absolute : String → Bool
is_absolute String.[] = false
is_absolute (String.◌∷◌ c s) = is_slash (code c)

-- `os.path.join(a, b)`
unfoldable pub join : String → String → String
join a b =
    if is_absolute b
    then b
    else (if is_empty a || ends_with_slash a then concat a b else concat a (concat "/" b))

-- The partition of a path, as `rel_path.lstrip("/").split("/")[0]`.
unfoldable pub partition_of : String → String
partition_of rel_path = first_part b'/' (lstrip is_slash rel_path)

-- `PARTITIONS.get(partition, {}).get("writable", True)`
unfoldable pub is_writable : String → Bool
is_writable partition = elim (lookup partition partitions) [ none ↦ true | some w ↦ w ]

module _ {D : Type 0} where
  unfoldable pub overlay_path : String → StorageService D → String
  overlay_path rel_path s = join (join s.rootfs "overlay") (lstrip is_slash rel_path)

  unfoldable pub ensure_writable : String → StorageService D → String
  ensure_writable rel_path s =
      if is_writable (partition_of rel_path)
      then join s.rootfs rel_path
      else overlay_path rel_path s

  unfoldable pub partition_path : String → StorageService D → Outcome StorageError String
  partition_path partition s =
      if has_key partition partitions then ok (join s.rootfs partition) else raise unknown_partition

  unfoldable pub read_file : Host D → String → StorageService D → Outcome StorageError D
  read_file host rel_path s = elim (lookup (host.resolve (overlay_path rel_path s)) s.files) [
    | some d ↦ ok d
    | none ↦ elim (lookup (host.resolve (join s.rootfs rel_path)) s.files) [
      | some d ↦ ok d
      | none ↦ raise no_such_file
    ]
  ]

  unfoldable pub publish_event : StorageEvent → StorageService D → StorageService D
  publish_event e s = if s.has_bus then record s { published = s.published ++ e ∷ [] } else s

  -- Where a write goes.
  unfoldable pub destination : String → Bool → StorageService D → String
  destination rel_path force_overlay s =
      if force_overlay then overlay_path rel_path s else ensure_writable rel_path s

  unfoldable pub write_file :
      Host D
      → String
      → D
      → Bool
      → StorageService D
      → Outcome StorageError (Unit {0}) × StorageService D
  write_file host rel_path d force_overlay s =
      let dest = destination rel_path force_overlay s in
      if host.writes dest
      then (
        ok tt,
        publish_event (write_event rel_path)
            (record s { files = insert (host.resolve dest) d s.files }),
      )
      else (raise not_written, s)

  -- The files below the directory are removed, as far as the host removes them.
  unfoldable pub clear_below : Host D → String → List (String × D) → List (String × D)
  clear_below host dir [] = []
  clear_below host dir ((path, d) ∷ files) =
      let rest = clear_below host dir files in
      if starts_with (concat dir "/") path && host.removes path then rest else (path, d) ∷ rest

  unfoldable pub clear_tmp : Host D → StorageService D → StorageService D
  clear_tmp host s = record s {
    files = clear_below host (host.resolve (join s.rootfs "tmp")) s.files;
  }

  unfoldable pub write_layout : Host D → StorageService D → StorageService D
  write_layout host s =
      if host.writes s.layout_path
      then record s { files = insert (host.resolve s.layout_path) (host.layout s.rootfs) s.files }
      else s

  unfoldable pub first_readable : Host D → List String → Option String
  first_readable host [] = none
  first_readable host (p ∷ ps) = if host.is_readable p then some p else first_readable host ps

  unfoldable pub detect_sd_card : Host D → Option String
  detect_sd_card host = elim (lookup host.host_type sd_probes) [
    | none ↦ none
    | some probes ↦ first_readable host probes
  ]

  unfoldable pub start : Host D → StorageService D → StorageService D
  start host s =
      if s.is_running
      then s
      else (let ready = write_layout host (clear_tmp host (record s { is_running = true })) in
          let sd = detect_sd_card host in
          publish_event (mount_event ready.rootfs sd)
            (record ready { sd_path = sd; state = running }))

  unfoldable pub stop : StorageService D → StorageService D
  stop s =
      if s.is_running
      then publish_event (unmount_event s.rootfs) (record s { is_running = false; state = stopped })
      else s

  unfoldable pub mount_sd_rootfs : Host D → String → StorageService D → Bool × StorageService D
  mount_sd_rootfs host sd s =
      if has_key (host.resolve (join (join sd "etc") "aura.conf")) s.files
      then (
        true,
        publish_event (sd_mount_event sd (host.abspath sd))
            (record s { rootfs = host.abspath sd; sd_path = some sd }),
      )
      else (false, s)
