-- ===== src/Kernel/Override/Growth.antt =====
-- How each step of a request in kernel/override.py makes the audit log grow.
use mathlib.Core.List.{append_assoc, append-nil}
use aura_aioscpu.Prelude.{
  if◌then◌else◌, if_ind, string_eq, nat_eq, Outcome, ok, raise, String, ◌≡◌, refl, sym, ◌∙◌, Bool,
  not, ◌&&◌, Option, none, some, List, [], ◌∷◌, ◌++◌, arith,
}
use aura_aioscpu.Prelude.Text.{is_empty}
use mathlib.Core.Path.{subst}
use aura_aioscpu.Kernel.Override.Requests.{
  Denial, no_denial, declined, OverrideRequest, OverrideResult, Entry, Effect, warned, prompted,
  published, executing, OverrideLog, CommandOverrideLayer, Arguments, Inputs,
}
use aura_aioscpu.Kernel.Override.{
  note, record_entry, entry_of, record_attempt, publish_event, interactive_confirm, refusal,
  approval, deny, decline, execute, approve, ask, respond,
}

-- A log is extended by entries, in memory and, where there is a file that can be written, there too.
pub record Extends (writable : Bool) (new : List Entry) (before after : OverrideLog) : Type 0 where
  pub log_dir : after.log_dir ≡ before.log_dir
  pub entries : after.entries ≡ before.entries ++ new
  pub file :
      after.file
      ≡ (if not (is_empty before.log_dir) && writable then before.file ++ new else before.file)

pub Extends-nil : (w : Bool) (log : OverrideLog) → Extends w [] log log
Extends-nil w log = record {
  log_dir = refl;
  entries = sym (append-nil log.entries);
  file = ground (arith, append-nil log.file);
}

record_entry-Extends :
    (w : Bool) (e : Entry) (log : OverrideLog) → Extends w (e ∷ []) log (record_entry w e log)
unfolding record_entry
record_entry-Extends w e log = record { log_dir = refl; entries = refl; file = refl }

Extends-trans :
    {w : Bool} {xs ys : List Entry} {a b c : OverrideLog}
    → Extends w xs a b
    → Extends w ys b c
    → Extends w (xs ++ ys) a c
Extends-trans {w} {xs} {ys} {a} {b} {c} h k = record {
  log_dir = k.log_dir ∙ h.log_dir;
  entries = rw (k.entries, h.entries) (append_assoc a.entries xs ys);
  file = ground (arith, h.file, k.file, h.log_dir, append_assoc a.file xs ys);
}

-- A step of a request adds entries to the log, and leaves the mode and the disk as they are.
pub record Adds (new : List Entry) (before after : CommandOverrideLayer) : Type 0 where
  pub mode : after.current_mode ≡ before.current_mode
  pub disk : after.disk_writable ≡ before.disk_writable
  pub log : Extends before.disk_writable new before.log after.log

Adds-trans :
    {xs ys : List Entry} {a b c : CommandOverrideLayer}
    → Adds xs a b
    → Adds ys b c
    → Adds (xs ++ ys) a c
Adds-trans {xs} {ys} {a} {b} {c} h k = record {
  mode = k.mode ∙ h.mode;
  disk = k.disk ∙ h.disk;
  log = Extends-trans h.log (rw h.disk at k.log);
}

module _ (col : CommandOverrideLayer) where
  note-Adds : (e : Effect) → Adds [] col (note e col)
  unfolding note
  note-Adds e = record { mode = refl; disk = refl; log = Extends-nil col.disk_writable col.log }

  publish_event-Adds : (t : String) → Adds [] col (publish_event t col)
  unfolding publish_event
  publish_event-Adds t =
      if_ind (Adds [] col) col.has_event_bus (λ _. note-Adds (published t))
        (λ _. record { mode = refl; disk = refl; log = Extends-nil col.disk_writable col.log })

  record_attempt-Adds :
      (req : OverrideRequest) (result : OverrideResult)
      → Adds (entry_of col.current_mode req result ∷ []) col (record_attempt req result col)
  unfolding record_attempt note
  record_attempt-Adds req result = record {
    mode = refl;
    disk = refl;
    log = record_entry-Extends col.disk_writable (entry_of col.current_mode req result) col.log;
  }

-- What a request adds to the log, as the layer's own entries.
unfoldable pub new_entries :
    String → OverrideRequest → OverrideResult → Option (Outcome String String) → List Entry
new_entries mode req result execute_fn =
    let last : List Entry = entry_of mode req result ∷ [] in
    if result.approved
    then elim execute_fn [ none ↦ last | some _ ↦ entry_of mode req (approval req) ∷ last ]
    else last

-- One entry in the given mode, with an event after it.
logged-Adds :
    (req : OverrideRequest) (result : OverrideResult) (t : String) (col : CommandOverrideLayer)
    → Adds
        (entry_of col.current_mode req result ∷ [])
        col
        (publish_event t (record_attempt req result col))
logged-Adds req result t col =
    Adds-trans (record_attempt-Adds col req result)
      (publish_event-Adds (record_attempt req result col) t)

-- The entry of a call that has been made, after the layer has changed from `start` to `col`.
called-Adds :
    (req : OverrideRequest) (result : OverrideResult) (t : String) {xs : List Entry}
    {start col : CommandOverrideLayer}
    → Adds xs start col
    → Adds
        (xs ++ entry_of start.current_mode req result ∷ [])
        start
        (publish_event t (record_attempt req result (note (executing req.request_id) col)))
called-Adds req result t {xs} {start} {col} h =
    let noted = note (executing req.request_id) col in
    let so_far : Adds (xs ++ []) start noted =
      Adds-trans h (note-Adds col (executing req.request_id)) in
    let last = logged-Adds req result t noted in
    Adds-trans (rw append-nil at so_far) (
      subst
        (λ m.
          Adds (entry_of m req result ∷ []) noted
            (publish_event t (record_attempt req result noted)))
        so_far.mode last)

module _ (req : OverrideRequest) (col : CommandOverrideLayer) where
  approve-Adds :
      (f : Option (Outcome String String))
      → Adds (new_entries col.current_mode req (approve req f col).0 f) col (approve req f col).1
  unfolding approve approval execute new_entries
  approve-Adds none = logged-Adds req (approval req) "OVERRIDE_APPROVED" col
  approve-Adds (some (ok out)) =
      called-Adds req _ "OVERRIDE_EXECUTED" (logged-Adds req (approval req) "OVERRIDE_APPROVED" col)
  approve-Adds (some (raise m)) =
      called-Adds req _ "OVERRIDE_FAILED" (logged-Adds req (approval req) "OVERRIDE_APPROVED" col)

  -- A refusal is one entry, whatever was to be executed.
  decline-Adds :
      (f : Option (Outcome String String))
      → Adds (new_entries col.current_mode req (decline req col).0 f) col (decline req col).1
  unfolding decline refusal new_entries
  decline-Adds f = logged-Adds req (refusal req declined) "OVERRIDE_DECLINED" col

  deny-Adds :
      (d : Denial) (f : Option (Outcome String String))
      → Adds (new_entries col.current_mode req (deny req d col).0 f) col (deny req d col).1
  unfolding deny refusal new_entries
  deny-Adds d f =
      let entered = record_attempt-Adds col req (refusal req d) in
      let told = note-Adds (record_attempt req (refusal req d) col) warned in
      Adds-trans entered (
        Adds-trans told
          (publish_event-Adds (note warned (record_attempt req (refusal req d) col)) _))

module _ (args : Arguments) (inputs : Inputs) (req : OverrideRequest) where
  abbrev pub Added : CommandOverrideLayer → OverrideResult × CommandOverrideLayer → Type 0
  Added col answer = Adds (new_entries col.current_mode req answer.0 args.execute_fn) col answer.1

  ask-Adds : (col : CommandOverrideLayer) → Added col (ask args inputs req col)
  unfolding ask note
  ask-Adds col =
      let told = note-Adds col warned in
      let asked = Adds-trans told (note-Adds (note warned col) prompted) in
      if_ind (Added col) args.confirm
        (λ _. Adds-trans told (approve-Adds req (note warned col) args.execute_fn))
        (λ _.
          if_ind (Added col) (interactive_confirm inputs.answer)
            (λ _.
              Adds-trans asked (approve-Adds req (note prompted (note warned col)) args.execute_fn))
            (λ _.
              Adds-trans asked
                (decline-Adds req (note prompted (note warned col)) args.execute_fn)))

  pub respond-Adds :
      (d : Denial) (col : CommandOverrideLayer) → Added col (respond d args inputs req col)
  unfolding respond
  respond-Adds no_denial col = ask-Adds col
  respond-Adds _ col = deny-Adds req col _ args.execute_fn
