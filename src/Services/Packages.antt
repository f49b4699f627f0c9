-- ===== src/Services/Packages.antt =====
-- The package manager of services/package_manager.py. What pip answers is an argument of each call; a
-- write of the registry's file that fails is one as well.
pub mod Installed
mod Tests
use aura_aioscpu.Prelude.{
  if◌then◌else◌, string_eq, nat_eq, ◌==◌, lookup, insert, erase, has_key, ℕ, String, Bool, true,
  false, ◌||◌, Option, none, some, List, [], ◌∷◌, ◌++◌, map,
}
use aura_aioscpu.Prelude.Text.{is_empty, strip, starts_with, lower_text, split_once, contains_text}
use aura_aioscpu.Prelude.Json.{Json}

pub record PackageRecord : Type 0 where
  pub name : String
  pub version : String
  pub description : String
  pub installed_at : ℕ

-- An entry of the file, whose keys may be missing; `none` in the list stands for one that is no object.
pub record SavedPackage : Type 0 where
  pub name : Option String
  pub version : Option String
  pub description : Option String
  pub installed_at : Option ℕ

abbrev pub PackagesFile : Type 0
PackagesFile = List (Option SavedPackage)

pub data PackageEvent : Type 0 where
  pkg_installed : (name version : String) → PackageEvent
  pkg_removed : (name : String) → PackageEvent

pub record PackageManager (B : Type 0) : Type 0 where
  pub registry : List (String × PackageRecord)
  pub file : Option B
  pub has_bus : Bool
  pub published : List PackageEvent

-- A run of pip: it ends, with success or with what it prints, or it takes too long or cannot be run.
pub data PipRun : Type 0 where
  succeeded : PipRun
  refused : (stderr stdout : String) → PipRun
  timed_out : (exc : String) → PipRun
  broken : (exc : String) → PipRun

pub data Message : Type 0 where
  installed : (version : String) → Message
  removed : Message
  pip_failed : (err : String) → Message
  pip_timed_out : Message
  other_error : (exc : String) → Message

pub record Result : Type 0 where
  pub success : Bool
  pub message : Message
  pub pkg : String

abbrev pub colon : ℕ
colon = b':'

-- What stands behind the first `:` of the first line that begins with the text, without spaces around.
unfoldable pub field_of : String → String → List String → String
field_of start missing [] = missing
field_of start missing (l ∷ ls) = elim (starts_with start l) [
  | false ↦ field_of start missing ls
  | true ↦ elim (split_once colon l) [ none ↦ missing | some parts ↦ strip parts.1 ]
]

-- The lines that `pip show` prints; `none`: it cannot be run.
unfoldable pub pip_show : String → String → Option (List String) → String
pip_show start missing none = missing
pip_show start missing (some lines) = field_of start missing lines

-- `stderr.strip() or stdout.strip()`; the message shows its first 300 characters.
unfoldable pub error_of : String → String → String
error_of stderr stdout = if is_empty (strip stderr) then strip stdout else strip stderr

-- `installed_at or time.time()`
unfoldable pub time_or : ℕ → Option ℕ → ℕ
time_or now none = now
time_or now (some t) = if t == 0 then now else t

abbrev pub default {ℓ} : {A : Type ℓ} → A → Option A → A
default a none = a
default a (some b) = b

unfoldable pub from_dict : ℕ → SavedPackage → PackageRecord
from_dict now s = record {
  name = default "" s.name;
  version = default "" s.version;
  description = default "" s.description;
  installed_at = time_or now s.installed_at;
}

unfoldable pub to_dict : PackageRecord → SavedPackage
to_dict r = record {
  name = some r.name;
  version = some r.version;
  description = some r.description;
  installed_at = some r.installed_at;
}

-- The loop of `_load_registry`, up to an entry that raises.
unfoldable pub load_entries :
    ℕ → PackagesFile → List (String × PackageRecord) → List (String × PackageRecord)
load_entries now [] m = m
load_entries now (none ∷ es) m = m
load_entries now (some s ∷ es) m =
    let r = from_dict now s in load_entries now es (insert r.name r m)

unfoldable pub entries : List (String × PackageRecord) → PackagesFile
entries m = map (λ e. some (to_dict e.1)) m

-- The records that a search finds.
unfoldable pub matching : String → List (String × PackageRecord) → List PackageRecord
matching term [] = []
matching term ((k, r) ∷ m) =
    let rest = matching term m in
    if contains_text term (lower_text r.name) || contains_text term (lower_text r.description)
    then r ∷ rest
    else rest

module _ {B : Type 0} (json : Json PackagesFile B) where
  unfoldable pub load_registry : ℕ → Option B → PackageManager B → PackageManager B
  load_registry now none m = m
  load_registry now (some text) m = elim (json.load text) [
    | none ↦ m
    | some es ↦ record m { registry = load_entries now es m.registry }
  ]

  -- `some` fault: the write fails and leaves that file.
  unfoldable pub save_registry : Option (Option B) → PackageManager B → PackageManager B
  save_registry none m = record m { file = some (json.dump (entries m.registry)) }
  save_registry (some left) m = record m { file = left }

  unfoldable pub publish_event : PackageEvent → PackageManager B → PackageManager B
  publish_event e m = if m.has_bus then record m { published = m.published ++ e ∷ [] } else m

  unfoldable pub add_package :
      Option (Option B)
      → ℕ
      → Option (List String)
      → Option (List String)
      → String
      → PackageManager B
      → Result × PackageManager B
  add_package fault now version_lines description_lines pkg m =
      let version = pip_show "Version:" "unknown" version_lines in
      let name = lower_text pkg in
      let r : PackageRecord = record {
        name = name;
        version = version;
        description = pip_show "Summary:" "" description_lines;
        installed_at = now;
      } in
      (
        record { success = true; message = installed version; pkg = pkg },
        publish_event (pkg_installed pkg version)
            (save_registry fault (record m { registry = insert name r m.registry })),
      )

  -- `install`, and `upgrade`, which calls pip with one option more. The two runs of `pip show` are given
  -- by the lines that they print.
  unfoldable pub install :
      Option (Option B)
      → ℕ
      → PipRun
      → Option (List String)
      → Option (List String)
      → String
      → PackageManager B
      → Result × PackageManager B
  install fault now succeeded version_lines description_lines pkg m =
      add_package fault now version_lines description_lines pkg m
  install fault now (refused stderr stdout) version_lines description_lines pkg m =
      (record { success = false; message = pip_failed (error_of stderr stdout); pkg = pkg }, m)
  install fault now (timed_out exc) version_lines description_lines pkg m =
      (record { success = false; message = pip_timed_out; pkg = pkg }, m)
  install fault now (broken exc) version_lines description_lines pkg m =
      (record { success = false; message = other_error exc; pkg = pkg }, m)

  -- The package leaves the registry whatever pip has answered.
  unfoldable pub forget : Option (Option B) → String → PackageManager B → PackageManager B
  forget fault pkg m =
      save_registry fault (record m { registry = erase (lower_text pkg) m.registry })

  -- A run that takes too long is an error as any other here.
  unfoldable pub uninstall :
      Option (Option B) → PipRun → String → PackageManager B → Result × PackageManager B
  uninstall fault succeeded pkg m = (
    record { success = true; message = removed; pkg = pkg },
    publish_event (pkg_removed pkg) (forget fault pkg m),
  )
  uninstall fault (refused stderr stdout) pkg m = (
    record { success = false; message = pip_failed (error_of stderr stdout); pkg = pkg },
    forget fault pkg m,
  )
  uninstall fault (timed_out exc) pkg m =
      (record { success = false; message = other_error exc; pkg = pkg }, m)
  uninstall fault (broken exc) pkg m =
      (record { success = false; message = other_error exc; pkg = pkg }, m)

module _ {B : Type 0} where
  unfoldable pub info : String → PackageManager B → Option PackageRecord
  info pkg m = lookup (lower_text pkg) m.registry

  unfoldable pub is_installed : String → PackageManager B → Bool
  is_installed pkg m = has_key (lower_text pkg) m.registry

  unfoldable pub search : String → PackageManager B → List PackageRecord
  search term m = matching (lower_text term) m.registry
