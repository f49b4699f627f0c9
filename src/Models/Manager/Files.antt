-- ===== src/Models/Manager/Files.antt =====
-- What models/model_manager.py writes into the registry's file and reads from it.
use mathlib.Core.Path.{subst}
use mathlib.Core.List.{append_assoc, append-nil}
use aura_aioscpu.Prelude.{
  string_eq, nat_eq, All, IsUnique, has-front, insert, keys, insert_fresh, keys-append, ℕ, String,
  ◌≡◌, refl, sym, ap, ◌∙◌, false, none, some, List, [], ◌∷◌, ◌++◌, map,
}
use aura_aioscpu.Prelude.Json.{Json, IsFaithful}
use aura_aioscpu.Models.Manager.{
  ModelInfo, ModelEntry, ModelManager, Sizes, Host, new_info, to_dict, from_dict, load_entries,
  entries, load_registry, init, save_registry,
}

module _ {F : Type 0} (sizes : Sizes F) where
  -- A model that has been read again: its size is rounded, and it is not loaded.
  abbrev pub reread : ModelInfo F → ModelInfo F
  reread info = record info {
    size_mb = sizes.round_2 info.size_mb;
    loaded = false;
    load_time = none;
  }

  abbrev pub reread_all : List (String × ModelInfo F) → List (String × ModelInfo F)
  reread_all m = map (λ e. (e.0, reread e.1)) m

  abbrev pub HasOwnName : String × ModelInfo F → Type 0
  HasOwnName e = e.1.name ≡ e.0

  from_dict-to_dict :
      (info : ModelInfo F) → from_dict sizes (to_dict sizes info) ≡ some (reread info)
  unfolding from_dict to_dict new_info
  from_dict-to_dict info = refl

  load_entries-entries :
      (ps acc : List (String × ModelInfo F))
      → All HasOwnName ps
      → IsUnique (keys acc ++ keys ps)
      → load_entries sizes (entries sizes ps) acc ≡ acc ++ reread_all ps
  unfolding load_entries entries from_dict to_dict new_info
  load_entries-entries [] acc own u = sym (append-nil acc)
  load_entries-entries ((name, info) ∷ ps) acc own u =
      let fresh = has-front (keys acc) (keys ps) name u in
      let stored : insert info.name (reread info) acc ≡ acc ++ (name, reread info) ∷ [] =
        ap (λ k. insert k (reread info) acc) own.0 ∙ insert_fresh name (reread info) acc fresh in
      let shifted : keys acc ++ name ∷ keys ps ≡ keys (acc ++ (name, reread info) ∷ []) ++ keys ps =
        sym (append_assoc (keys acc) (name ∷ []) (keys ps))
        ∙ ap (λ l. l ++ keys ps) (sym (keys-append acc ((name, reread info) ∷ []))) in
      ap (load_entries sizes (entries sizes ps)) stored
      ∙ load_entries-entries ps (acc ++ (name, reread info) ∷ []) own.1 (subst IsUnique shifted u)
      ∙ append_assoc acc ((name, reread info) ∷ []) (reread_all ps)

module _ {E F B : Type 0} (host : Host E) (sizes : Sizes F)
    (json : Json (List (ModelEntry F)) B) where
  -- A manager whose models stand under their own names, once each, saves its registry; by a JSON library
  -- that reads what it has written, a new manager on the file has the same models in the same order, none
  -- of them loaded, and with their sizes rounded to two decimals; its active model is none.
  pub init-save_registry :
      IsFaithful json
      → (max : ℕ) (m : ModelManager E F B) → All (HasOwnName sizes) m.registry
      → IsUnique (keys m.registry)
      → init host sizes json max (save_registry host sizes json none m).file ≡ record {
        registry = reread_all sizes m.registry;
        active = none;
        engine = host.stub;
        max_mem_mb = max;
        file = some (json.dump (entries sizes m.registry));
      }
  unfolding init save_registry load_registry
  init-save_registry faithful max m own u =
      let file = json.dump (entries sizes m.registry) in
      let fresh : ModelManager E F B = record {
        registry = [];
        active = none;
        engine = host.stub;
        max_mem_mb = max;
        file = some file;
      } in
      ap
        (λ o. elim o [
          | none ↦ fresh
          | some es ↦ record fresh { registry = load_entries sizes es [] }
        ])
        (faithful.load_dump (entries sizes m.registry))
      ∙ ap (λ r. record fresh { registry = r }) (load_entries-entries sizes m.registry [] own u)
