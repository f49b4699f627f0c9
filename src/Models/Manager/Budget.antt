-- ===== src/Models/Manager/Budget.antt =====
-- The memory budget of models/model_manager.py, and what is active, for every sequence of calls.

use aura_aioscpu.Prelude.{
  if◌then◌else◌, Option-cases, if_ind, string_eq, nat_eq, lookup, has_key, AllValues,
  AllValues-insert, ℕ, String, ◌≡◌, refl, inl, inr, Bool, true, false, not, Option, none, some,
  List, [], ◌∷◌,
}
use aura_aioscpu.Prelude.Text.{is_empty, lower_text}
use aura_aioscpu.Prelude.Json.{Json}
use aura_aioscpu.Models.Manager.{
  ModelInfo, ModelEntry, ModelManager, Sizes, Host, DirEntry, new_info, mark_unloaded,
  model_extensions, extension, stem, save_registry, register, activate, load, unload, scan_entry,
  scan_models_dir, load_ollama, load_openai,
}

-- A model that is marked as loaded is within the budget.
abbrev pub FitsBudget : {F : Type 0} → Sizes F → ℕ → ModelInfo F → Type 0
FitsBudget sizes max info = info.loaded ≡ true → sizes.exceeds info.size_mb max ≡ false

-- Of the registry, the active model and the engine of a manager.
pub record IsWithin {E F : Type 0} (sizes : Sizes F) (max : ℕ) (stub : E)
    (registry : List (String × ModelInfo F)) (active : Option String) (engine : E) : Type 0 where
  pub fits : AllValues (FitsBudget sizes max) registry
  pub idle : active ≡ none → engine ≡ stub

-- The calls that change a manager.
pub data Call (B : Type 0) : Type 0 where
  register_call : (fault : Option (Option B)) → (name path model_type description : String) → Call B
  load_call : (name : String) → Call B
  unload_call : Call B
  scan_call : (fault : Option (Option B)) → (found : List DirEntry) → Call B
  ollama_call : (model : String) → (base_url : Option String) → Call B
  openai_call : (model : Option String) → Call B

module _ {E F B : Type 0} (host : Host E) (sizes : Sizes F)
    (json : Json (List (ModelEntry F)) B) where
  abbrev pub IsManaged : ModelManager E F B → Type 0
  IsManaged m = IsWithin sizes m.max_mem_mb host.stub m.registry m.active m.engine

  unfoldable pub apply : Call B → ModelManager E F B → ModelManager E F B
  apply (register_call fault name path model_type description) m =
      (register host sizes json fault name path model_type description m).1
  apply (load_call name) m = (load host sizes json name m).1
  apply unload_call m = unload host sizes json m
  apply (scan_call fault found) m = (scan_models_dir host sizes json fault found ([], m)).1
  apply (ollama_call model base_url) m = (load_ollama host sizes json model base_url m).1
  apply (openai_call model) m = (load_openai host sizes json model m).1

  unfoldable pub run : List (Call B) → ModelManager E F B → ModelManager E F B
  run [] m = m
  run (c ∷ cs) m = run cs (apply c m)

  save-IsManaged :
      (fault : Option (Option B)) (m : ModelManager E F B)
      → IsManaged m
      → IsManaged (save_registry host sizes json fault m)
  unfolding save_registry
  save-IsManaged none m h = h
  save-IsManaged (some left) m h = h

  register-IsManaged :
      (fault : Option (Option B)) (name path model_type description : String)
      (m : ModelManager E F B)
      → IsManaged m
      → IsManaged (register host sizes json fault name path model_type description m).1
  unfolding register new_info
  register-IsManaged fault name path model_type description m h =
      save-IsManaged fault _
        (record { fits = AllValues-insert name _ m.registry (λ marked. cc) h.fits; idle = h.idle })

  activate-IsManaged :
      (name : String) (info : ModelInfo F) (m : ModelManager E F B)
      → sizes.exceeds info.size_mb m.max_mem_mb ≡ false
      → IsManaged m
      → IsManaged (activate host sizes json name info m)
  unfolding activate
  activate-IsManaged name info m small h = record {
    fits = AllValues-insert name _ m.registry (λ marked. small) h.fits;
    idle = λ e. cc;
  }

  load-IsManaged :
      (name : String) (m : ModelManager E F B)
      → IsManaged m
      → IsManaged (load host sizes json name m).1
  unfolding load
  load-IsManaged name m h = elim (Option-cases (lookup name m.registry)) [
    | inl unknown ↦ rw (unknown, load) h
    | inr (info, found) ↦
        rw (found, load)
          (if_ind (λ (z : Bool × ModelManager E F B). IsManaged z.1)
            (not (host.exists_file info.path)) (λ _. h)
            (λ _.
              if_ind (λ (z : Bool × ModelManager E F B). IsManaged z.1)
                (sizes.exceeds info.size_mb m.max_mem_mb) (λ _. h)
                (λ small. activate-IsManaged name info m small h)))
  ]

  mark_unloaded-fits :
      (name : String) (max : ℕ) (r : List (String × ModelInfo F))
      → AllValues (FitsBudget sizes max) r
      → AllValues (FitsBudget sizes max) (mark_unloaded name r)
  unfolding mark_unloaded
  mark_unloaded-fits name max r h = elim (Option-cases (lookup name r)) [
    | inl unknown ↦ rw (unknown, mark_unloaded) h
    | inr (info, found) ↦
        rw (found, mark_unloaded)
          (AllValues-insert name (record info { loaded = false }) r (λ marked. cc) h)
  ]

  unload-fits :
      (active : Option String) (max : ℕ) (r : List (String × ModelInfo F))
      → AllValues (FitsBudget sizes max) r
      → AllValues
          (FitsBudget sizes max)
          (elim active [ none ↦ r | some name ↦ if is_empty name then r else mark_unloaded name r ])
  unload-fits none max r h = h
  unload-fits (some name) max r h =
      if_ind (AllValues (FitsBudget sizes max)) (is_empty name) (λ _. h)
        (λ _. mark_unloaded-fits name max r h)

  unload-IsManaged : (m : ModelManager E F B) → IsManaged m → IsManaged (unload host sizes json m)
  unfolding unload
  unload-IsManaged m h = record {
    fits = unload-fits m.active m.max_mem_mb m.registry h.fits;
    idle = λ e. refl;
  }

  scan_entry-IsManaged :
      (fault : Option (Option B)) (d : DirEntry) (s : List String × ModelManager E F B)
      → IsManaged s.1
      → IsManaged (scan_entry host sizes json fault d s).1
  unfolding scan_entry
  scan_entry-IsManaged fault d s h =
      elim (Option-cases
        (if d.is_file then lookup (lower_text (extension d.name)) model_extensions else none)) [
          | inl skipped ↦ rw (skipped, scan_entry) h
          | inr (model_type, known) ↦
              rw (known, scan_entry)
                (if_ind (λ (z : List String × ModelManager E F B). IsManaged z.1)
                  (has_key (stem d.name) s.1.registry) (λ _. h)
                  (λ _. register-IsManaged fault (stem d.name) d.path model_type "" s.1 h))
        ]

  scan-IsManaged :
      (fault : Option (Option B)) (ds : List DirEntry) (s : List String × ModelManager E F B)
      → IsManaged s.1
      → IsManaged (scan_models_dir host sizes json fault ds s).1
  unfolding scan_models_dir
  scan-IsManaged fault [] s h = h
  scan-IsManaged fault (d ∷ ds) s h = scan-IsManaged fault ds _ (scan_entry-IsManaged fault d s h)

  apply-IsManaged : (c : Call B) (m : ModelManager E F B) → IsManaged m → IsManaged (apply c m)
  unfolding apply load_ollama load_openai
  apply-IsManaged (register_call fault name path model_type description) m h =
      register-IsManaged fault name path model_type description m h
  apply-IsManaged (load_call name) m h = load-IsManaged name m h
  apply-IsManaged unload_call m h = unload-IsManaged m h
  apply-IsManaged (scan_call fault found) m h = scan-IsManaged fault found ([], m) h
  apply-IsManaged (ollama_call model base_url) m h =
      if_ind (λ (z : Bool × ModelManager E F B). IsManaged z.1)
        (not (host.ollama_available base_url)) (λ _. h)
        (λ _. record { fits = h.fits; idle = λ e. cc })
  apply-IsManaged (openai_call model) m h = record { fits = h.fits; idle = λ e. cc }

  -- Of a manager of which it holds at first, after any calls, whatever files there are and whatever the
  -- engines' libraries do: a model that is marked as loaded is within the memory budget, and while no
  -- model is active, the engine is the stub.
  pub run-IsWithin :
      (calls : List (Call B)) (m : ModelManager E F B)
      → IsWithin sizes m.max_mem_mb host.stub m.registry m.active m.engine
      → let after = run calls m in
        IsWithin sizes after.max_mem_mb host.stub after.registry after.active after.engine
  unfolding run
  run-IsWithin [] m h = h
  run-IsWithin (c ∷ cs) m h = run-IsWithin cs (apply c m) (apply-IsManaged c m h)
