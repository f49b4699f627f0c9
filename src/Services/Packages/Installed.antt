-- ===== src/Services/Packages/Installed.antt =====
-- What is installed in services/package_manager.py's registry after an install or a removal.
use aura_aioscpu.Prelude.{
  if◌then◌else◌, if_ind, string_eq, nat_eq, ◌==◌, lookup, has_key, lookup-insert, lookup-erase, ℕ,
  String, ◌≡◌, refl, ap, ◌∙◌, Bool, true, false, not, ◌&&◌, ◌||◌, Option, none, some, List,
}
use aura_aioscpu.Prelude.Text.{lower_text}
use aura_aioscpu.Prelude.Json.{Json}
use aura_aioscpu.Services.Packages.{
  PackageRecord, PackagesFile, PackageEvent, PackageManager, PipRun, succeeded, refused, timed_out,
  broken, save_registry, publish_event, add_package, install, forget, uninstall, is_installed,
}

module _ {B : Type 0} (json : Json PackagesFile B) where
  publish_registry :
      (e : PackageEvent) (m : PackageManager B) → (publish_event json e m).registry ≡ m.registry
  unfolding publish_event
  publish_registry e m =
      if_ind (λ (z : PackageManager B). z.registry ≡ m.registry) m.has_bus (λ _. refl) (λ _. refl)

  save_registry_keeps :
      (fault : Option (Option B)) (m : PackageManager B)
      → (save_registry json fault m).registry ≡ m.registry
  unfolding save_registry
  save_registry_keeps none m = refl
  save_registry_keeps (some left) m = refl

  key_is_true :
      (o : Option PackageRecord) (b : Bool) (r : PackageRecord)
      → elim (if b then some r else o) [ none ↦ false | some _ ↦ true ]
        ≡ (b || elim o [ none ↦ false | some _ ↦ true ])
  key_is_true o true r = refl
  key_is_true o false r = refl

  key_is_gone :
      (o : Option PackageRecord) (b : Bool)
      → elim (if b then none else o) [ none ↦ false | some _ ↦ true ]
        ≡ (not b && elim o [ none ↦ false | some _ ↦ true ])
  key_is_gone o true = refl
  key_is_gone o false = refl

  abbrev has_record : Option PackageRecord → Bool
  has_record o = elim o [ none ↦ false | some _ ↦ true ]

  -- After an install, a package is installed exactly when it was before, or pip has succeeded and it is
  -- the package, upper and lower case being the same.
  is_installed-install :
      (fault : Option (Option B)) (now : ℕ) (pip : PipRun)
      (version description : Option (List String)) (pkg other : String) (m : PackageManager B)
      → let done = install json fault now pip version description pkg m in
        is_installed other done.1
        ≡ (done.0.success && lower_text pkg == lower_text other || is_installed other m)
  unfolding install add_package is_installed
  is_installed-install fault now succeeded version description pkg other m =
      ap (λ r. has_key (lower_text other) r) (publish_registry _ _ ∙ save_registry_keeps fault _)
      ∙ ap has_record (lookup-insert (lower_text pkg) (lower_text other) _ m.registry)
      ∙ key_is_true (lookup (lower_text other) m.registry) (lower_text pkg == lower_text other) _
  is_installed-install fault now (refused stderr stdout) version description pkg other m = refl
  is_installed-install fault now (timed_out exc) version description pkg other m = refl
  is_installed-install fault now (broken exc) version description pkg other m = refl

  -- Whether pip has come to an end.
  abbrev pub has_ended : PipRun → Bool
  has_ended succeeded = true
  has_ended (refused stderr stdout) = true
  has_ended (timed_out exc) = false
  has_ended (broken exc) = false

  forget_installed :
      (fault : Option (Option B)) (pkg other : String) (m : PackageManager B)
      → is_installed other (forget json fault pkg m)
        ≡ (not (lower_text pkg == lower_text other) && is_installed other m)
  unfolding forget is_installed
  forget_installed fault pkg other m =
      ap (λ r. has_key (lower_text other) r) (save_registry_keeps fault _)
      ∙ ap has_record (lookup-erase (lower_text pkg) (lower_text other) m.registry)
      ∙ key_is_gone (lookup (lower_text other) m.registry) (lower_text pkg == lower_text other)

  -- After a removal, a package is installed exactly when it was before, and it is not the package or pip
  -- has not come to an end: where pip refuses to remove it, the registry has lost it all the same.
  pub is_installed-uninstall :
      (fault : Option (Option B)) (pip : PipRun) (pkg other : String) (m : PackageManager B)
      → is_installed other (uninstall json fault pip pkg m).1
        ≡ (not (has_ended pip && lower_text pkg == lower_text other) && is_installed other m)
  unfolding uninstall is_installed
  is_installed-uninstall fault succeeded pkg other m =
      ap (λ r. has_key (lower_text other) r) (publish_registry _ _)
      ∙ forget_installed fault pkg other m
  is_installed-uninstall fault (refused stderr stdout) pkg other m =
      forget_installed fault pkg other m
  is_installed-uninstall fault (timed_out exc) pkg other m = refl
  is_installed-uninstall fault (broken exc) pkg other m = refl
