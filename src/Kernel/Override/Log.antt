-- ===== src/Kernel/Override/Log.antt =====
-- What kernel/override.py's audit log holds after a request.

use aura_aioscpu.Prelude.{
  if◌then◌else◌, Option-cases, if_ind, string_eq, nat_eq, Outcome, ok, raise, String, ◌≡◌, refl,
  sym, inl, inr, Bool, true, false, none, some, List, [], ◌∷◌,
}
use mathlib.Core.Path.{subst}
use aura_aioscpu.Kernel.Override.Requests.{
  Denial, no_denial, OverrideResult, Entry, CommandOverrideLayer, Arguments, Metadata, texts,
  not_json, FingerprintError, Inputs,
}
use aura_aioscpu.Kernel.Override.{
  validate, note, entry_of, new_request, approval, respond, request_override, before_record,
  request_override_with,
}
use aura_aioscpu.Kernel.Override.Growth.{Extends, Extends-nil, new_entries, respond-Adds}

-- An entry as it stands in the log: the mode, what was requested under which id and when, and the result.
abbrev pub logged : String → Arguments → Inputs → OverrideResult → Entry
logged mode args inputs result = record {
  kernel_mode = mode;
  request = record {
    action = args.action;
    reason = args.reason;
    requestor = args.requestor;
    target_path = args.target_path;
    extra = args.extra;
    request_id = inputs.request_id;
    timestamp = inputs.now;
  };
  result = result;
}

-- An approval before anything is executed.
abbrev pub approval_of : Inputs → OverrideResult
approval_of inputs = record {
  result_id = inputs.request_id;
  approved = true;
  executed = false;
  denial_reason = no_denial;
  output = none;
}

-- What a request adds to the log: the result, and before it the approval if an `execute_fn` ran.
unfoldable pub expected_entries : String → Arguments → Inputs → OverrideResult → List Entry
expected_entries mode args inputs result =
    let last : List Entry = logged mode args inputs result ∷ [] in
    if result.approved
    then elim args.execute_fn [
      | none ↦ last
      | some _ ↦ logged mode args inputs (approval_of inputs) ∷ last
    ]
    else last

new_entries-expected_entries :
    (mode : String) (args : Arguments) (inputs : Inputs) (result : OverrideResult)
    → new_entries mode (new_request args inputs) result args.execute_fn
      ≡ expected_entries mode args inputs result
unfolding new_entries expected_entries entry_of new_request approval
new_entries-expected_entries mode args inputs result = elim (Option-cases args.execute_fn) [
  | inl nothing ↦ rw (nothing) refl
  | inr (f, given) ↦ rw (given) refl
]

request_override-expected_entries :
    (col : CommandOverrideLayer) (args : Arguments) (inputs : Inputs)
    → let (result, after) = request_override col args inputs in
      Extends col.disk_writable
        (expected_entries col.current_mode args inputs result)
        col.log
        after.log
unfolding request_override
request_override-expected_entries col args inputs =
    let req = new_request args inputs in
    let answer = respond (validate col.guard_bridge req) args inputs req col in
    subst (λ new. Extends col.disk_writable new col.log answer.1.log)
      (new_entries-expected_entries col.current_mode args inputs answer.0)
      (respond-Adds args inputs req (validate col.guard_bridge req) col).log

before_record_log :
    (denial : Denial) (confirm : Bool) (col : CommandOverrideLayer)
    → (before_record denial confirm col).log ≡ col.log
unfolding before_record note
before_record_log no_denial confirm col =
    if_ind (λ (z : CommandOverrideLayer). z.log ≡ col.log) confirm (λ _. refl) (λ _. refl)
before_record_log _ confirm col = refl

-- The entries for an answer: none where the request has raised.
unfoldable pub entries_for :
    String → Metadata → Arguments → Inputs → Outcome FingerprintError OverrideResult → List Entry
entries_for mode metadata args inputs (raise e) = []
entries_for mode not_json args inputs (ok result) = []
entries_for mode (texts extra) args inputs (ok result) =
    expected_entries mode (record args { extra = extra }) inputs result

-- The log only grows, and by exactly these entries: the result that the caller gets and, where an
-- `execute_fn` was called, the approval before it, each with the arguments, the id and the time of this
-- request and the current mode; and by none where the request raises, as it does when JSON has not got
-- its metadata. The audit file is extended by the same entries if there is one that can be written, and
-- is else untouched.
pub request_override-Extends :
    (metadata : Metadata) (col : CommandOverrideLayer) (args : Arguments) (inputs : Inputs)
    → let (answer, after) = request_override_with metadata col args inputs in
      Extends col.disk_writable
        (entries_for col.current_mode metadata args inputs answer)
        col.log
        after.log
unfolding request_override_with entries_for
request_override-Extends (texts extra) col args inputs =
    request_override-expected_entries col (record args { extra = extra }) inputs
request_override-Extends not_json col args inputs =
    subst (Extends col.disk_writable [] col.log)
      (sym
        (before_record_log (validate col.guard_bridge (new_request args inputs)) args.confirm col))
      (Extends-nil col.disk_writable col.log)
