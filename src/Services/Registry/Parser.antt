-- ===== src/Services/Registry/Parser.antt =====
-- `_parse_service_file` and `discover` of services/registry.py. configparser is a parameter: a file that
-- it refuses, as a whole or in a value, is `none`.
use aura_aioscpu.Prelude.{
  if◌then◌else◌, string_eq, nat_eq, ◌==◌, insert, ◌>>=◌, ℕ, ◌+◌, String, not, Option, none, some,
  List, [], ◌∷◌, map,
}
use aura_aioscpu.Prelude.Text.{codes, is_empty, strip, lower, codes_eq, ends_with, without, split}
use aura_aioscpu.Services.Registry.Descriptors.{
  stopped, RestartPolicy, never, always, on_failure, ServiceDescriptor, ServiceRegistry,
  ServiceFile, Numbers,
}
use aura_aioscpu.Services.Registry.Order.{compute_load_order}

-- `s.get(option, default)`
unfoldable pub get : (String → Option String) → String → String → String
get section key default = elim (section key) [ none ↦ default | some v ↦ v ]

-- `[d.strip() for d in raw.split(",") if d.strip()]`
unfoldable pub dependency_names : List String → List String
dependency_names [] = []
dependency_names (d ∷ ds) =
    if is_empty (strip d) then dependency_names ds else strip d ∷ dependency_names ds

unfoldable pub policy_of : String → RestartPolicy
policy_of raw = if raw == "never" then never else (if raw == "always" then always else on_failure)

-- `os.path.basename(path).replace(".service", "")`
unfoldable pub base_name : String → String
base_name fname = without ".service" fname

-- The numbers are converted in the order of the fields.
unfoldable pub parse_service_file :
    {I F : Type 0} → Numbers F → String → ServiceFile → Option (ServiceDescriptor I F)
parse_service_file numbers fname file = do
  delay ← numbers.read_float (get file.service "RestartDelay" "5")
  interval ← numbers.read_float (get file.health "CheckInterval" "30")
  failures ← numbers.read_int (get file.health "MaxFailures" "3")
  some (record {
    name = get file.service "Name" (base_name fname);
    description = get file.service "Description" "";
    module_path = get file.service "Module" "";
    auto_start = codes_eq (map lower (codes (get file.service "AutoStart" "true"))) (codes "true");
    restart_policy = policy_of (strip (get file.service "RestartPolicy" "on-failure"));
    restart_delay = delay;
    depends_on = dependency_names (split b',' (strip (get file.service "DependsOn" "")));
    check_interval = interval;
    max_failures = failures;
    state = stopped;
    failure_count = 0;
    started_at = 0;
    instance_of = none;
  })

-- What a scan of the directory has found.
pub record Scan (I F : Type 0) : Type 0 where
  pub found : List (String × ServiceDescriptor I F)
  pub count : ℕ

module _ {I F : Type 0} (numbers : Numbers F) (read : String → Option ServiceFile) where
  unfoldable pub parse : String → Option (ServiceDescriptor I F)
  parse fname = do file ← read fname; parse_service_file numbers fname file

  unfoldable pub scan_file : String → Scan I F → Scan I F
  scan_file fname s = if not (ends_with ".service" fname) then s else elim (parse fname) [
    | none ↦ s
    | some desc ↦ record { found = insert desc.name desc s.found; count = s.count + 1 }
  ]

  -- Over the file names in sorted order.
  unfoldable pub scan : List String → Scan I F → Scan I F
  scan [] s = s
  scan (f ∷ fs) s = scan fs (scan_file f s)

  -- `none`: the directory does not exist.
  unfoldable pub discover : Option (List String) → ServiceRegistry I F → ℕ × ServiceRegistry I F
  discover none r = (0, r)
  discover (some fnames) r =
      let s = scan fnames (record { found = r.registry; count = 0 }) in
      (s.count, compute_load_order (record r { registry = s.found }))
