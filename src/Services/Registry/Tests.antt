-- ===== src/Services/Registry/Tests.antt =====
-- Runs of services/registry.py's registry: service files that are found, ordered and started.

use aura_aioscpu.Prelude.{
  if◌then◌else◌, if_ind, string_eq, nat_eq, ◌==◌, ==_iff, All, has, add, IsUnique, lookup, insert,
  AllValues, keys, ok, ℕ, ◌+◌, ◌<◌, String, ◌≡◌, refl, true, Option, none, some, List, [], ◌∷◌,
  arith,
}
use aura_aioscpu.Prelude.Text.{
  codes, is_space, lstrip, rstrip, strip, lower, codes_eq, text_length, starts_with, ends_with,
  without_from, without, prefix_first, split,
}
use aura_aioscpu.Services.Registry.Descriptors.{
  stopped, on_failure, ServiceDescriptor, ServiceRegistry, ServiceFile, Numbers,
}
use aura_aioscpu.Services.Registry.Parser.{
  get, dependency_names, policy_of, base_name, parse_service_file, parse, scan_file, scan, discover,
}
use aura_aioscpu.Services.Registry.Order.{
  mark, finish, visit_all, dependencies, visit, order_of, compute_load_order,
}
use aura_aioscpu.Services.Registry.LoadOrder.{order_of-IsUnique}
use aura_aioscpu.Services.Registry.Fuel.{order_of_enough}
use aura_aioscpu.Services.Registry.DependencyOrder.{IsOrdered, IsAcyclic, order_of-IsOrdered}
use aura_aioscpu.Services.Registry.Lifecycle.{
  IsSettled, discover_call, stop_call, autostart_call, run, run-IsSettled,
}
use aura_aioscpu.Services.Registry.Autostart.{can_launch, launched, start_all_autostart_launches}
use aura_aioscpu.Services.Registry.{Host, start_all_autostart}

-- Only the module that ends in "network" can be launched.
abbrev host : Host String
host = record {
  launch = λ path cls. if ends_with "network" path then some cls else none;
  halt = λ i. ok tt;
  clock = λ name. 7;
}

abbrev numbers : Numbers String
numbers = record { read_float = λ s. some s; read_int = λ s. some s }

abbrev network_options : String → Option String
network_options key =
    if key == "DependsOn"
    then some " storage, ,logging"
    else (if key == "Module"
        then some "services:network:NetworkService"
        else (if key == "AutoStart" then some "TRUE" else none))

abbrev read : String → Option ServiceFile
read fname =
    if fname == "network.service"
    then some (record { service = network_options; health = λ k. none })
    else some (record { service = λ k. none; health = λ k. none })

abbrev empty : ServiceRegistry String String
empty = record { registry = []; load_order = []; has_bus = true; published = [] }

abbrev listing : Option (List String)
listing = some ("network.service" ∷ "notes.txt" ∷ "storage.service" ∷ [])

abbrev found : ServiceRegistry String String
found = (discover numbers read listing empty).1

discover_count : (discover {I = String} numbers read listing empty).0 ≡ 2
unfolding discover compute_load_order order_of visit_all scan scan_file ends_with codes_eq codes
    parse insert get base_name without without_from starts_with lookup add has is_space lower lstrip
    rstrip strip split prefix_first text_length dependencies finish mark visit dependency_names
    policy_of parse_service_file
discover_count = refl

discover_order : found.load_order ≡ "storage" ∷ "logging" ∷ "network" ∷ []
unfolding discover compute_load_order order_of visit_all scan scan_file ends_with codes_eq codes
    parse insert get base_name without without_from starts_with lookup add has is_space lower lstrip
    rstrip strip split prefix_first text_length dependencies finish mark visit dependency_names
    policy_of parse_service_file
discover_order = refl

base_name_all : base_name "a.service.service" ≡ "a"
unfolding base_name without without_from starts_with text_length
base_name_all = refl

abbrev network : ServiceDescriptor String String
network = record {
  name = "network";
  description = "";
  module_path = "services:network:NetworkService";
  auto_start = true;
  restart_policy = on_failure;
  restart_delay = "5";
  depends_on = "storage" ∷ "logging" ∷ [];
  check_interval = "30";
  max_failures = "3";
  state = stopped;
  failure_count = 0;
  started_at = 0;
  instance_of = none;
}

parse-network : parse numbers read "network.service" ≡ some network
unfolding codes_eq codes parse get base_name without without_from starts_with is_space lower lstrip
    rstrip strip split prefix_first text_length dependency_names policy_of parse_service_file
parse-network = refl

abbrev reg : List (String × ServiceDescriptor String String)
reg =
    ("network", network)
    ∷ ("storage", record network { name = "storage"; depends_on = []; module_path = "" })
    ∷ []

abbrev rank : String → ℕ
rank name = if name == "network" then 1 else 0

abbrev deps_of : String → List String
deps_of name = if name == "network" then "storage" ∷ "logging" ∷ [] else []

falls : (name : String) → All (λ d. rank d < rank name) (dependencies reg name)
unfolding dependencies lookup
falls name =
    let P : Option (ServiceDescriptor String String) → Type 0 =
      λ o. All (λ d. rank d < rank name) (elim o [ none ↦ [] | some desc ↦ desc.depends_on ]) in
    if_ind P ("network" == name)
      (λ e. (
        ground (arith, ==_iff "network" name, ==_iff name "network"),
        (ground (arith, ==_iff "network" name, ==_iff name "network"), tt),
      ))
      (λ _. if_ind P ("storage" == name) (λ _. tt) (λ _. tt))

acyclic : IsAcyclic reg
acyclic = record { rank = rank; falls = falls }

order_of-IsOrdered_example : IsOrdered (dependencies reg) [] (order_of reg)
order_of-IsOrdered_example = order_of-IsOrdered reg acyclic

order_of_enough_example :
    (visit_all (visit (3 + 5) reg) (keys reg) (record { visited = []; order = [] })).order
    ≡ order_of reg
order_of_enough_example = order_of_enough reg 5

order_of-IsUnique_example : IsUnique (order_of reg)
order_of-IsUnique_example = order_of-IsUnique reg

no_entry :
    (k : String) (v : ServiceDescriptor String String)
    → lookup k empty.registry ≡ some v
    → IsSettled v
unfolding lookup
no_entry k v e = cc

run-IsSettled_example :
    AllValues IsSettled
      (run host numbers read
        (discover_call listing ∷ autostart_call ∷ stop_call "network" ∷ [])
        empty).registry
run-IsSettled_example =
    run-IsSettled host numbers read
      (discover_call listing ∷ autostart_call ∷ stop_call "network" ∷ []) empty
      (record { at = λ k v e. no_entry k v e })

abbrev ready : ServiceRegistry String String
ready = record empty { registry = reg }

start_all_autostart_launches_example :
    (lookup "network" (start_all_autostart host (compute_load_order ready)).1.registry
      ≡ some (launched host "network" network))
    × (has "network" (start_all_autostart host (compute_load_order ready)).0
        ≡ can_launch host network)
unfolding lookup
start_all_autostart_launches_example =
    start_all_autostart_launches host ready "network" network refl refl
