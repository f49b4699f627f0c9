-- ===== src/Kernel/Override/Tests.antt =====
-- Runs of kernel/override.py's layer.

use aura_aioscpu.Prelude.Text.{strip}
use aura_aioscpu.Prelude.{
  string_eq, nat_eq, has, ok, ◌≡◌, refl, ◌↔◌, true, false, ◌||◌, none, some, [], ◌∷◌,
}
use aura_aioscpu.Kernel.Override.Requests.{
  warned, prompted, Bridge, CommandOverrideLayer, Arguments, texts, not_json, Inputs,
}
use aura_aioscpu.Kernel.Override.{
  validate, note, interactive_confirm, new_request, request_override, before_record,
  request_override_with,
}
use aura_aioscpu.Kernel.Override.Guard.{IsSafe, approved_iff}
use aura_aioscpu.Kernel.Override.Audit.{IsAudited, request_override-IsAudited}
use aura_aioscpu.Kernel.Override.Growth.{Extends}
use aura_aioscpu.Kernel.Override.Log.{entries_for, request_override-Extends}

abbrev layer : CommandOverrideLayer
layer = record {
  guard_bridge = none;
  bridge = none;
  has_event_bus = true;
  current_mode = "universal";
  log = record { log_dir = ""; entries = []; file = [] };
  disk_writable = true;
  trace = [];
}

abbrev listening : Arguments
listening = record {
  action = "net.listen";
  reason = "serve the terminal";
  target_path = "";
  extra = [];
  confirm = false;
  requestor = "AURA";
  execute_fn = some (ok "listening");
}

abbrev consent : Inputs
consent = record { request_id = "r1"; now = 7; answer = some " YES" }

abbrev host : Bridge
host = record { available_capabilities = "net_listen" ∷ [] }

approved_iff_example : ((request_override layer listening consent).0.approved ≡ true) ↔ (
    IsSafe layer.guard_bridge (new_request listening consent)
    × ((listening.confirm || interactive_confirm consent.answer) ≡ true))
approved_iff_example = approved_iff layer listening consent

request_override-IsAudited_example : IsAudited (request_override layer listening consent).1
request_override-IsAudited_example =
    request_override-IsAudited listening consent layer (record { audited = tt })

request_override-Extends_example :
    let (answer, after) = request_override_with (texts []) layer listening consent in
    Extends true (entries_for "universal" (texts []) listening consent answer) layer.log after.log
request_override-Extends_example = request_override-Extends (texts []) layer listening consent

-- A safe request whose metadata JSON has not: the operator is asked, and nothing is logged.
request_not_json :
    (request_override_with not_json layer listening consent).1.trace ≡ warned ∷ prompted ∷ []
unfolding request_override_with before_record validate has new_request strip note
request_not_json = refl
