-- ===== src/Kernel/Override.antt =====
-- The command override layer of kernel/override.py: `OverrideGuard.validate`, `OverrideLog` and
-- `CommandOverrideLayer.request_override`. An `execute_fn` does not call the layer. What the layer does
-- to the outside, a warning, a prompt, a line of the audit log, an event, a call of `execute_fn`, is an
-- effect, and the effects stand in their order in the layer's trace. The texts of a denial are the constructors of `Denial`.
pub mod Requests
pub mod Guard
pub mod Audit
pub mod Growth
pub mod Log
mod Tests
use aura_aioscpu.Kernel.Override.Requests.{
  Denial, no_denial, not_overrideable, bridge_unsupported, protected_partition, empty_reason,
  declined, execution_failed, OverrideRequest, OverrideResult, Entry, Effect, warned, prompted,
  recorded, published, executing, Bridge, OverrideLog, CommandOverrideLayer, overrideable_actions,
  protected_partitions, Arguments, Inputs, Metadata, texts, not_json, FingerprintError, type_error,
}
use aura_aioscpu.Prelude.{
  nat_beq, if◌then◌else◌, string_eq, nat_eq, length, drop, has, Outcome, ok, raise, ℕ, zero, suc,
  ◌-◌, String, Bool, true, false, not, ◌&&◌, ◌||◌, Option, none, some, List, [], ◌∷◌, ◌++◌, map,
}
use aura_aioscpu.Prelude.Text.{codes, is_empty, lstrip, strip, first_part, lower, codes_eq, replace}

unfoldable pub has_capability : Bridge → String → Bool
has_capability b capability = has capability b.available_capabilities

-- `req.target_path.lstrip("/").split("/")[0]`
unfoldable pub partition_of : String → String
unfolding lstrip first_part
partition_of path = first_part b'/' (lstrip (λ c. nat_beq c b'/') path)

unfoldable pub is_protected : String → Bool
unfolding partition_of
is_protected path = not (is_empty path) && has (partition_of path) protected_partitions

unfoldable pub bridge_refuses : Option Bridge → String → Bool
unfolding has_capability
bridge_refuses none action = false
bridge_refuses (some b) action = not (has_capability b (replace "." "_" action))

-- `OverrideGuard.validate`: no denial is an approval.
unfoldable pub validate : Option Bridge → OverrideRequest → Denial
unfolding is_protected bridge_refuses
validate bridge req =
    if not (has req.action overrideable_actions)
    then not_overrideable
    else if bridge_refuses bridge req.action
    then bridge_unsupported
    else if is_protected req.target_path
    then protected_partition
    else if is_empty req.reason || is_empty (strip req.reason)
    then empty_reason
    else no_denial

unfoldable pub note : Effect → CommandOverrideLayer → CommandOverrideLayer
note e col = record col { trace = col.trace ++ e ∷ [] }

-- `OverrideLog.record`, with `_append_to_file`: an OSError is passed over.
unfoldable pub record_entry : Bool → Entry → OverrideLog → OverrideLog
record_entry writable entry log = record log {
  entries = log.entries ++ entry ∷ [];
  file = if not (is_empty log.log_dir) && writable then log.file ++ entry ∷ [] else log.file;
}

unfoldable pub entry_of : String → OverrideRequest → OverrideResult → Entry
entry_of mode req result = record { kernel_mode = mode; request = req; result = result }

unfoldable pub record_attempt :
    OverrideRequest → OverrideResult → CommandOverrideLayer → CommandOverrideLayer
record_attempt req result col =
    let entry = entry_of col.current_mode req result in
    note (recorded entry) (record col { log = record_entry col.disk_writable entry col.log })

unfoldable pub publish_event : String → CommandOverrideLayer → CommandOverrideLayer
unfolding note
publish_event event_type col = if col.has_event_bus then note (published event_type) col else col

-- `_interactive_confirm`: the operator's answer is `none` where `input` raises.
unfoldable pub interactive_confirm : Option String → Bool
unfolding strip codes lower
interactive_confirm none = false
interactive_confirm (some answer) = codes_eq (map lower (codes (strip answer))) (codes "yes")

unfoldable pub new_request : Arguments → Inputs → OverrideRequest
new_request args inputs = record {
  action = args.action;
  reason = args.reason;
  requestor = args.requestor;
  target_path = args.target_path;
  extra = args.extra;
  request_id = inputs.request_id;
  timestamp = inputs.now;
}

unfoldable pub refusal : OverrideRequest → Denial → OverrideResult
refusal req denial = record {
  result_id = req.request_id;
  approved = false;
  executed = false;
  denial_reason = denial;
  output = none;
}

unfoldable pub approval : OverrideRequest → OverrideResult
approval req = record {
  result_id = req.request_id;
  approved = true;
  executed = false;
  denial_reason = no_denial;
  output = none;
}

-- Step 1: the request is not safe.
unfoldable pub deny :
    OverrideRequest → Denial → CommandOverrideLayer → OverrideResult × CommandOverrideLayer
deny req denial col = (
  refusal req denial,
  publish_event "OVERRIDE_DENIED" (note warned (record_attempt req (refusal req denial) col)),
)

-- Step 3: the operator declined.
unfoldable pub decline :
    OverrideRequest → CommandOverrideLayer → OverrideResult × CommandOverrideLayer
decline req col = (
  refusal req declined,
  publish_event "OVERRIDE_DECLINED" (record_attempt req (refusal req declined) col),
)

-- Step 5: `execute_fn` is called, and the result object is updated and recorded again.
unfoldable pub execute :
    OverrideRequest
    → OverrideResult
    → Option (Outcome String String)
    → CommandOverrideLayer
    → OverrideResult × CommandOverrideLayer
execute req result none col = (result, col)
execute req result (some (ok output)) col =
    let done = record result { executed = true; output = some output } in
    (
      done,
      publish_event "OVERRIDE_EXECUTED"
          (record_attempt req done (note (executing req.request_id) col)),
    )
execute req result (some (raise message)) col =
    let failed = record result { executed = false; denial_reason = execution_failed message } in
    (
      failed,
      publish_event "OVERRIDE_FAILED"
          (record_attempt req failed (note (executing req.request_id) col)),
    )

-- Steps 4 and 5: the approval is logged before the call.
unfoldable pub approve :
    OverrideRequest
    → Option (Outcome String String)
    → CommandOverrideLayer
    → OverrideResult × CommandOverrideLayer
approve req execute_fn col =
    execute req (approval req) execute_fn
      (publish_event "OVERRIDE_APPROVED" (record_attempt req (approval req) col))

-- Steps 2 to 5.
unfoldable pub ask :
    Arguments
    → Inputs
    → OverrideRequest
    → CommandOverrideLayer
    → OverrideResult × CommandOverrideLayer
ask args inputs req col =
    let warned_col = note warned col in
    if args.confirm
    then approve req args.execute_fn warned_col
    else if interactive_confirm inputs.answer
    then approve req args.execute_fn (note prompted warned_col)
    else decline req (note prompted warned_col)

unfoldable pub respond :
    Denial
    → Arguments
    → Inputs
    → OverrideRequest
    → CommandOverrideLayer
    → OverrideResult × CommandOverrideLayer
respond no_denial args inputs req col = ask args inputs req col
respond denial args inputs req col = deny req denial col

unfoldable pub request_override :
    CommandOverrideLayer → Arguments → Inputs → OverrideResult × CommandOverrideLayer
request_override col args inputs =
    let req = new_request args inputs in respond (validate col.guard_bridge req) args inputs req col

-- What the layer does before it records anything.
unfoldable pub before_record : Denial → Bool → CommandOverrideLayer → CommandOverrideLayer
before_record no_denial confirm col =
    if confirm then note warned col else note prompted (note warned col)
before_record _ confirm col = col

-- `request_override` with any metadata: where JSON has not got them, the first entry cannot be given a
-- fingerprint, and the exception leaves the request before the entry is appended.
unfoldable pub request_override_with :
    Metadata
    → CommandOverrideLayer
    → Arguments
    → Inputs
    → Outcome FingerprintError OverrideResult × CommandOverrideLayer
request_override_with (texts extra) col args inputs =
    let (result, after) = request_override col (record args { extra = extra }) inputs in
    (ok result, after)
request_override_with not_json col args inputs = (
  raise type_error,
  before_record (validate col.guard_bridge (new_request args inputs)) args.confirm col,
)

-- `set_mode`
unfoldable pub set_mode : String → CommandOverrideLayer → CommandOverrideLayer
set_mode mode col = record col { current_mode = mode }

-- `self._entries[-limit:]`: the last `limit` entries, and all of them where `limit` is 0.
unfoldable pub get_audit_log : ℕ → CommandOverrideLayer → List Entry
get_audit_log zero col = col.log.entries
get_audit_log (suc n) col = drop (length col.log.entries - suc n) col.log.entries

-- `self.col.bridge = live_bridge`, as `Kernel.start` wires the layer to the host bridge.
unfoldable pub wire_bridge : Bridge → CommandOverrideLayer → CommandOverrideLayer
wire_bridge b col = record col { bridge = some b }
