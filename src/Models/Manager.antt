-- ===== src/Models/Manager.antt =====
-- `ModelManager` of models/model_manager.py. `E` is the type of the engines and `F` that of sizes in
-- megabytes. The file system, the engines' constructors and the reach of an API are a parameter. The
-- methods are modelled one after another, as their lock orders them.
pub mod Budget
pub mod Scan
pub mod Files
mod Tests
use mathlib.Core.Option
use aura_aioscpu.Prelude.{
  nat_beq, if◌then◌else◌, string_eq, nat_eq, ◌==◌, lookup, insert, has_key, ◌>>=◌, ℕ, String, Bool,
  true, false, not, ◌||◌, Option, none, some, List, [], ◌∷◌, ◌++◌, map,
}
use aura_aioscpu.Prelude.Text.{is_empty, concat, lstrip, rsplit, lower_text}
use aura_aioscpu.Prelude.Json.{Json}

pub record ModelInfo (F : Type 0) : Type 0 where
  pub name : String
  pub path : String
  pub model_type : String
  pub size_mb : F
  pub description : String
  pub loaded : Bool
  pub load_time : Option ℕ

-- An entry of the registry's file; `load_registry` does not read whether it was loaded.
pub record ModelEntry (F : Type 0) : Type 0 where
  pub name : Option String
  pub path : Option String
  pub model_type : Option String
  pub size_mb : Option F
  pub description : Option String

pub record ModelManager (E F B : Type 0) : Type 0 where
  pub registry : List (String × ModelInfo F)
  pub active : Option String
  pub engine : E
  pub max_mem_mb : ℕ
  pub file : Option B

-- Sizes: `os.path.getsize(path) / (1024 * 1024)`, 0.0, `size > max` and `round(size, 2)`.
pub record Sizes (F : Type 0) : Type 0 where
  pub megabytes : ℕ → F
  pub nothing : F
  pub exceeds : F → ℕ → Bool
  pub round_2 : F → F

-- `resolve`: a path as it is if it is absolute, and joined to the models' directory otherwise.
-- `load_engine` of a GGUF or an ONNX file: `none` where the library is missing or refuses the file.
pub record Host (E : Type 0) : Type 0 where
  pub resolve : String → String
  pub exists_file : String → Bool
  pub size_of : String → ℕ
  pub llama_cpp : String → Option E
  pub onnx_runtime : String → Option E
  pub stub : E
  pub seconds : String → ℕ
  pub ollama_available : Option String → Bool
  pub ollama : String → Option String → E
  pub openai : Option String → E × String

-- A file that `os.scandir` finds.
pub record DirEntry : Type 0 where
  pub name : String
  pub path : String
  pub is_file : Bool

abbrev pub default {ℓ} : {A : Type ℓ} → A → Option A → A
default a none = a
default a (some b) = b

abbrev pub is_gguf : String → Bool
is_gguf model_type = model_type == "gguf" || model_type == "ggml"

module _ {F : Type 0} where
  unfoldable pub new_info : String → String → String → F → String → ModelInfo F
  new_info name path model_type size description = record {
    name = name;
    path = path;
    model_type = model_type;
    size_mb = size;
    description = description;
    loaded = false;
    load_time = none;
  }

  unfoldable pub to_dict : Sizes F → ModelInfo F → ModelEntry F
  to_dict sizes info = record {
    name = some info.name;
    path = some info.path;
    model_type = some info.model_type;
    size_mb = some (sizes.round_2 info.size_mb);
    description = some info.description;
  }

  -- `none` stands for the `KeyError` of an entry without a name or a path.
  unfoldable pub from_dict : Sizes F → ModelEntry F → Option (ModelInfo F)
  from_dict sizes e = do
    name ← e.name
    path ← e.path
    some (
        new_info name path (default "gguf" e.model_type) (default sizes.nothing e.size_mb)
          (default "" e.description))

  -- The loop of `_load_registry`, up to an entry that raises.
  unfoldable pub load_entries :
      Sizes F → List (ModelEntry F) → List (String × ModelInfo F) → List (String × ModelInfo F)
  load_entries sizes [] m = m
  load_entries sizes (e ∷ es) m = elim (from_dict sizes e) [
    | none ↦ m
    | some info ↦ load_entries sizes es (insert info.name info m)
  ]

  unfoldable pub entries : Sizes F → List (String × ModelInfo F) → List (ModelEntry F)
  entries sizes m = map (λ e. to_dict sizes e.1) m

  unfoldable pub mark_unloaded : String → List (String × ModelInfo F) → List (String × ModelInfo F)
  mark_unloaded name r = elim (lookup name r) [
    | none ↦ r
    | some info ↦ insert name (record info { loaded = false }) r
  ]

-- The extensions of `_MODEL_EXTENSIONS`, each with the type that `ext.lstrip(".")` makes of it.
abbrev pub model_extensions : List (String × String)
model_extensions =
    (".gguf", "gguf") ∷ (".bin", "bin") ∷ (".pt", "pt") ∷ (".ggml", "ggml") ∷ (".onnx", "onnx") ∷ []

abbrev pub is_dot : ℕ → Bool
is_dot c = nat_beq c b'.'

-- `os.path.splitext(name)[1]`: the dots in front do not count.
unfoldable pub extension : String → String
extension name = elim (rsplit b'.' (lstrip is_dot name)) [
  | none ↦ ""
  | some parts ↦ concat "." parts.1
]

-- `name.rsplit(".", 1)[0]`
unfoldable pub stem : String → String
stem name = elim (rsplit b'.' name) [ none ↦ name | some parts ↦ parts.0 ]

module _ {E F B : Type 0} (host : Host E) (sizes : Sizes F)
    (json : Json (List (ModelEntry F)) B) where
  unfoldable pub load_registry : Option B → ModelManager E F B → ModelManager E F B
  load_registry none m = m
  load_registry (some text) m = elim (json.load text) [
    | none ↦ m
    | some es ↦ record m { registry = load_entries sizes es m.registry }
  ]

  -- `__init__` on the file that is there
  unfoldable pub init : ℕ → Option B → ModelManager E F B
  init max file =
      load_registry file
        (record { registry = []; active = none; engine = host.stub; max_mem_mb = max; file = file })

  -- `some` fault: the write fails and leaves that file.
  unfoldable pub save_registry : Option (Option B) → ModelManager E F B → ModelManager E F B
  save_registry none m = record m { file = some (json.dump (entries sizes m.registry)) }
  save_registry (some left) m = record m { file = left }

  unfoldable pub register :
      Option (Option B)
      → String
      → String
      → String
      → String
      → ModelManager E F B
      → ModelInfo F × ModelManager E F B
  register fault name path model_type description m =
      let full = host.resolve path in
      let size =
        if host.exists_file full then sizes.megabytes (host.size_of full) else sizes.nothing in
      let info = new_info name full model_type size description in
      (info, save_registry fault (record m { registry = insert name info m.registry }))

  -- `_try_load_engine`
  unfoldable pub try_load_engine : ModelInfo F → Option E
  try_load_engine info =
      if is_gguf info.model_type
      then host.llama_cpp info.path
      else (if info.model_type == "onnx" then host.onnx_runtime info.path else none)

  unfoldable pub activate : String → ModelInfo F → ModelManager E F B → ModelManager E F B
  activate name info m = record m {
    engine = default host.stub (try_load_engine info);
    active = some name;
    registry =
        insert name (record info { loaded = true; load_time = some (host.seconds name) })
          m.registry;
  }

  unfoldable pub load : String → ModelManager E F B → Bool × ModelManager E F B
  load name m = elim (lookup name m.registry) [
    | none ↦ (false, m)
    | some info ↦
        if not (host.exists_file info.path)
        then (false, m)
        else (if sizes.exceeds info.size_mb m.max_mem_mb
            then (false, m)
            else (true, activate name info m))
  ]

  -- An active name that is the empty text counts as none.
  unfoldable pub unload : ModelManager E F B → ModelManager E F B
  unload m = record m {
    registry = elim m.active [
      | none ↦ m.registry
      | some name ↦ if is_empty name then m.registry else mark_unloaded name m.registry
    ];
    active = none;
    engine = host.stub;
  }

  unfoldable pub scan_entry :
      Option (Option B)
      → DirEntry
      → List String × ModelManager E F B
      → List String × ModelManager E F B
  scan_entry fault d s =
      elim (if d.is_file then lookup (lower_text (extension d.name)) model_extensions else none) [
        | none ↦ s
        | some model_type ↦
            let name = stem d.name in
            if has_key name s.1.registry
            then s
            else (s.0 ++ name ∷ [], (register fault name d.path model_type "" s.1).1)
      ]

  unfoldable pub scan_models_dir :
      Option (Option B)
      → List DirEntry
      → List String × ModelManager E F B
      → List String × ModelManager E F B
  scan_models_dir fault [] s = s
  scan_models_dir fault (d ∷ ds) s = scan_models_dir fault ds (scan_entry fault d s)

  unfoldable pub load_ollama :
      String → Option String → ModelManager E F B → Bool × ModelManager E F B
  load_ollama model base_url m = if not (host.ollama_available base_url) then (false, m) else (
    true,
    record m { engine = host.ollama model base_url; active = some (concat "ollama:" model) },
  )

  -- The engine has settled which model it uses.
  unfoldable pub load_openai : Option String → ModelManager E F B → Bool × ModelManager E F B
  load_openai model m = (
    true,
    record m {
      engine = (host.openai model).0;
      active = some (concat "openai:" (host.openai model).1);
    },
  )
