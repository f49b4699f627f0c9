-- ===== src/Models/Manager/Scan.antt =====
-- What a scan of the models' directory in models/model_manager.py registers, and what loads leave.

use aura_aioscpu.Prelude.{
  if◌then◌else◌, Bool-cases, Option-cases, if_ind, string_eq, nat_eq, ◌==◌, ==_iff, lookup, has_key,
  lookup-insert, has_key_found, String, ◌≡◌, refl, ap, ◌∙◌, inl, inr, true, false, Option, none,
  some, List, [], ◌∷◌, arith,
}
use aura_aioscpu.Prelude.Text.{lower_text}
use aura_aioscpu.Prelude.Json.{Json}
use aura_aioscpu.Models.Manager.{
  ModelInfo, ModelEntry, ModelManager, Sizes, Host, DirEntry, model_extensions, extension, stem,
  save_registry, register, scan_entry, scan_models_dir,
}

module _ {E F B : Type 0} (host : Host E) (sizes : Sizes F)
    (json : Json (List (ModelEntry F)) B) where
  save_registry_keeps :
      (fault : Option (Option B)) (m : ModelManager E F B)
      → (save_registry host sizes json fault m).registry ≡ m.registry
  unfolding save_registry
  save_registry_keeps none m = refl
  save_registry_keeps (some left) m = refl

  register_other :
      (fault : Option (Option B)) (name path model_type : String) (m : ModelManager E F B)
      (other : String) (info : ModelInfo F)
      → has_key name m.registry ≡ false
      → lookup other m.registry ≡ some info
      → lookup other (register host sizes json fault name path model_type "" m).1.registry
        ≡ some info
  unfolding register
  register_other fault name path model_type m other info new found =
      ap (lookup other) (save_registry_keeps fault _)
      ∙ lookup-insert name other _ m.registry
      ∙ elim (Bool-cases (name == other)) [
        | inr differ ↦ rw (differ) found
        | inl same ↦
            let e : name ≡ other = (==_iff name other).0 same in
            let there : has_key name m.registry ≡ true =
              has_key_found name info m.registry (ap (λ k. lookup k m.registry) e ∙ found) in
            ground (arith, there, new)
      ]

  scan_entry_keeps :
      (fault : Option (Option B)) (d : DirEntry) (s : List String × ModelManager E F B)
      (name : String) (info : ModelInfo F)
      → lookup name s.1.registry ≡ some info
      → lookup name (scan_entry host sizes json fault d s).1.registry ≡ some info
  unfolding scan_entry
  scan_entry_keeps fault d s name info found =
      elim (Option-cases
        (if d.is_file then lookup (lower_text (extension d.name)) model_extensions else none)) [
          | inl skipped ↦ rw (skipped, scan_entry) found
          | inr (model_type, known) ↦
              rw (known, scan_entry)
                (if_ind
                  (λ (z : List String × ModelManager E F B). lookup name z.1.registry ≡ some info)
                  (has_key (stem d.name) s.1.registry) (λ _. found)
                  (λ new.
                    register_other fault (stem d.name) d.path model_type s.1 name info new found))
        ]

  -- A scan never replaces a model that is registered, whatever files it finds.
  pub scan_models_dir_keeps :
      (fault : Option (Option B)) (ds : List DirEntry) (s : List String × ModelManager E F B)
      (name : String) (info : ModelInfo F)
      → lookup name s.1.registry ≡ some info
      → lookup name (scan_models_dir host sizes json fault ds s).1.registry ≡ some info
  unfolding scan_models_dir
  scan_models_dir_keeps fault [] s name info found = found
  scan_models_dir_keeps fault (d ∷ ds) s name info found =
      scan_models_dir_keeps fault ds _ name info (scan_entry_keeps fault d s name info found)
