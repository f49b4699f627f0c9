-- ===== src/Services/Packages/Tests.antt =====
-- Runs of services/package_manager.py's manager.
use aura_aioscpu.Prelude.{
  string_eq, nat_eq, ◌==◌, erase, ◌≡◌, refl, true, not, ◌&&◌, none, some, [], ◌∷◌,
}
use aura_aioscpu.Prelude.Text.{strip, starts_with, translate, lower_text, split_once, contains_text}
use aura_aioscpu.Prelude.Json.{Json}
use aura_aioscpu.Services.Packages.{
  PackageRecord, PackagesFile, PackageManager, refused, field_of, pip_show, matching, save_registry,
  forget, uninstall, is_installed, search,
}
use aura_aioscpu.Services.Packages.Installed.{has_ended, is_installed-uninstall}

abbrev json : Json PackagesFile PackagesFile
json = record { dump = λ d. d; load = λ d. some d }

abbrev flask : PackageRecord
flask = record { name = "flask"; version = "2"; description = "A Web framework"; installed_at = 5 }

abbrev manager : PackageManager PackagesFile
manager = record { registry = ("flask", flask) ∷ []; file = none; has_bus = true; published = [] }

show_version : pip_show "Version:" "unknown" (some ("Name: x" ∷ "Version: 1.2:3 " ∷ [])) ≡ "1.2:3"
unfolding pip_show field_of starts_with split_once strip
show_version = refl

search_web : search "WEB" manager ≡ flask ∷ []
unfolding search matching contains_text lower_text starts_with translate
search_web = refl

-- pip refuses, and the registry has lost the package.
uninstall_refused : (uninstall json none (refused "denied" "") "Flask" manager).1.registry ≡ []
unfolding uninstall forget save_registry erase lower_text translate
uninstall_refused = refl

is_installed-uninstall_example :
    is_installed "flask" (uninstall json none (refused "denied" "") "Flask" manager).1 ≡ (
      not (has_ended json (refused "denied" "") && lower_text "Flask" == lower_text "flask")
      && is_installed "flask" manager)
is_installed-uninstall_example =
    is_installed-uninstall json none (refused "denied" "") "Flask" "flask" manager
