-- ===== src/Models/Manager/Tests.antt =====
-- Runs of models/model_manager.py's manager, with sizes in whole megabytes.

use aura_aioscpu.Prelude.Text.{lstrip, rsplit}
use aura_aioscpu.Prelude.{
  ltb, string_eq, nat_eq, has, IsUnique, lookup, insert, lookup-All, ℕ, ◌/◌, String, ◌≡◌, refl,
  true, false, none, some, List, [], ◌∷◌, map,
}
use aura_aioscpu.Prelude.Json.{Json, IsFaithful}
use aura_aioscpu.Models.Manager.{
  ModelInfo, ModelEntry, ModelManager, Sizes, Host, entries, mark_unloaded, extension, init,
  save_registry, activate, load, unload, scan_models_dir,
}
use aura_aioscpu.Models.Manager.Budget.{
  FitsBudget, IsWithin, Call, load_call, unload_call, scan_call, openai_call, run, run-IsWithin,
}
use aura_aioscpu.Models.Manager.Scan.{scan_models_dir_keeps}
use aura_aioscpu.Models.Manager.Files.{reread_all, init-save_registry}

abbrev host : Host String
host = record {
  resolve = λ p. p;
  exists_file = λ p. true;
  size_of = λ p. 9000000;
  llama_cpp = λ p. some "llama";
  onnx_runtime = λ p. none;
  stub = "stub";
  seconds = λ n. 1;
  ollama_available = λ b. false;
  ollama = λ m b. "ollama";
  openai = λ m. ("openai", "gpt");
}

abbrev sizes : Sizes ℕ
sizes = record {
  megabytes = λ n. n / 1048576;
  nothing = 0;
  exceeds = λ s max. ltb max s;
  round_2 = λ s. s;
}

abbrev json : Json (List (ModelEntry ℕ)) (List (ModelEntry ℕ))
json = record { dump = λ d. d; load = λ d. some d }

faithful : IsFaithful json
faithful = record { load_dump = λ d. refl }

abbrev phi : ModelInfo ℕ
phi = record {
  name = "phi";
  path = "/m/phi.gguf";
  model_type = "gguf";
  size_mb = 8;
  description = "";
  loaded = false;
  load_time = none;
}

abbrev manager : ModelManager String ℕ (List (ModelEntry ℕ))
manager = record {
  registry =
      ("phi", phi)
      ∷ ("huge", record phi { name = "huge"; size_mb = 900 })
      ∷ ("tiny", record phi { name = "tiny" })
      ∷ [];
  active = none;
  engine = "stub";
  max_mem_mb = 512;
  file = none;
}

extension_dots : extension "..a.GGUF" ≡ ".GGUF"
unfolding extension rsplit lstrip
extension_dots = refl

extension_hidden : extension ".gguf" ≡ ""
unfolding extension rsplit lstrip
extension_hidden = refl

load_huge : load host sizes json "huge" manager ≡ (false, manager)
unfolding load lookup
load_huge = refl

-- Two models are marked as loaded after two loads, and an unload leaves the first one so.
still_loaded :
    map
      (λ e. e.1.loaded)
      (unload host sizes json
        (load host sizes json "tiny" (load host sizes json "phi" manager).1).1).registry
    ≡ true ∷ false ∷ false ∷ []
unfolding unload load lookup activate insert mark_unloaded
still_loaded = refl

abbrev calls : List (Call (List (ModelEntry ℕ)))
calls =
    load_call "phi"
    ∷ scan_call none (record { name = "new.ONNX"; path = "/m/new.ONNX"; is_file = true } ∷ [])
    ∷ load_call "huge"
    ∷ unload_call
    ∷ openai_call none
    ∷ []

none_loaded :
    (k : String) (v : ModelInfo ℕ) → lookup k manager.registry ≡ some v → FitsBudget sizes 512 v
none_loaded k v found =
    lookup-All (λ e. FitsBudget sizes 512 e.1) k v manager.registry found
      ((λ h. cc), ((λ h. cc), ((λ h. cc), tt)))

manager-IsWithin : IsWithin {E = String} sizes 512 "stub" manager.registry none "stub"
manager-IsWithin = record { fits = record { at = none_loaded }; idle = λ e. refl }

run-IsWithin_example :
    IsWithin sizes
      (run host sizes json calls manager).max_mem_mb
      "stub"
      (run host sizes json calls manager).registry
      (run host sizes json calls manager).active
      (run host sizes json calls manager).engine
run-IsWithin_example = run-IsWithin host sizes json calls manager manager-IsWithin

scan_models_dir_keeps_example :
    lookup "phi"
      (scan_models_dir host sizes json none
        (record { name = "phi.gguf"; path = "/m/other/phi.gguf"; is_file = true } ∷ [])
        ([], manager)).1.registry
    ≡ some phi
unfolding lookup
scan_models_dir_keeps_example =
    scan_models_dir_keeps host sizes json none
      (record { name = "phi.gguf"; path = "/m/other/phi.gguf"; is_file = true } ∷ []) ([], manager)
      "phi" phi refl

init-save_registry_example :
    init host sizes json 512 (save_registry host sizes json none manager).file ≡ record {
      registry = reread_all sizes manager.registry;
      active = none;
      engine = "stub";
      max_mem_mb = 512;
      file = some (entries sizes manager.registry);
    }
unfolding IsUnique has
init-save_registry_example =
    init-save_registry host sizes json faithful 512 manager (refl, (refl, (refl, tt)))
      (refl, (refl, (refl, tt)))
