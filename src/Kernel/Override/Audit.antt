-- ===== src/Kernel/Override/Audit.antt =====
-- The audit trail of kernel/override.py: what is logged, and when.

use aura_aioscpu.Prelude.{
  if◌then◌else◌, Bool-cases, if_ind, string_eq, nat_eq, ==-refl, has, Outcome, ok, raise, String,
  ◌≡◌, refl, inl, inr, true, Option, none, some, List, [], ◌∷◌, ◌++◌, arith,
}
use aura_aioscpu.Kernel.Override.Requests.{
  Denial, no_denial, declined, OverrideRequest, OverrideResult, Effect, warned, prompted, recorded,
  published, executing, CommandOverrideLayer, Arguments, Inputs,
}
use aura_aioscpu.Kernel.Override.{
  validate, note, entry_of, record_attempt, publish_event, interactive_confirm, new_request,
  refusal, approval, deny, decline, execute, approve, ask, respond, request_override,
}

-- Every call of an `execute_fn` stands behind the logged approval of its request.
abbrev pub Audited : List String → List Effect → Type 0
Audited seen [] = Unit
Audited seen (recorded e ∷ t) =
    Audited (if e.result.approved then e.request.request_id ∷ seen else seen) t
Audited seen (executing request_id ∷ t) = (has request_id seen ≡ true) × Audited seen t
Audited seen (warned ∷ t) = Audited seen t
Audited seen (prompted ∷ t) = Audited seen t
Audited seen (published _ ∷ t) = Audited seen t

-- What the effects to come may rely on.
abbrev Allows : List String → Effect → Type 0
Allows seen (executing request_id) = has request_id seen ≡ true
Allows seen (recorded _) = Unit
Allows seen warned = Unit
Allows seen prompted = Unit
Allows seen (published _) = Unit

-- The ids seen before an effect at the end of a trace.
unfoldable ids_after : List String → List Effect → List String
ids_after seen [] = seen
ids_after seen (recorded e ∷ t) =
    ids_after (if e.result.approved then e.request.request_id ∷ seen else seen) t
ids_after seen (_ ∷ t) = ids_after seen t

Audited-snoc :
    (seen : List String) (t : List Effect) (e : Effect)
    → Audited seen t
    → Allows (ids_after seen t) e
    → Audited seen (t ++ e ∷ [])
unfolding ids_after
Audited-snoc seen [] (executing i) h k = (k, tt)
Audited-snoc seen [] (recorded e) h k = tt
Audited-snoc seen [] warned h k = tt
Audited-snoc seen [] prompted h k = tt
Audited-snoc seen [] (published _) h k = tt
Audited-snoc seen (recorded d ∷ t) e h k = Audited-snoc _ t e h k
Audited-snoc seen (executing i ∷ t) e h k = (h.0, Audited-snoc seen t e h.1 k)
Audited-snoc seen (warned ∷ t) e h k = Audited-snoc seen t e h k
Audited-snoc seen (prompted ∷ t) e h k = Audited-snoc seen t e h k
Audited-snoc seen (published _ ∷ t) e h k = Audited-snoc seen t e h k

ids_after-snoc :
    (seen : List String) (t : List Effect) (e : Effect)
    → ids_after seen (t ++ e ∷ []) ≡ ids_after (ids_after seen t) (e ∷ [])
unfolding ids_after
ids_after-snoc seen [] e = refl
ids_after-snoc seen (recorded d ∷ t) e = ids_after-snoc _ t e
ids_after-snoc seen (executing i ∷ t) e = ids_after-snoc seen t e
ids_after-snoc seen (warned ∷ t) e = ids_after-snoc seen t e
ids_after-snoc seen (prompted ∷ t) e = ids_after-snoc seen t e
ids_after-snoc seen (published _ ∷ t) e = ids_after-snoc seen t e

pub record IsAudited (col : CommandOverrideLayer) : Type 0 where
  pub audited : Audited [] col.trace

-- The approval of the request is in the trace.
record Logged (i : String) (col : CommandOverrideLayer) : Type 0 where
  logged : has i (ids_after [] col.trace) ≡ true

module _ (col : CommandOverrideLayer) where
  note-IsAudited :
      (e : Effect) → IsAudited col → Allows (ids_after [] col.trace) e → IsAudited (note e col)
  unfolding note
  note-IsAudited e h k = record { audited = Audited-snoc [] col.trace e h.audited k }

  -- An effect takes no approval back.
  has-ids_after :
      (i : String) (e : Effect)
      → Logged i col
      → has i (ids_after (ids_after [] col.trace) (e ∷ [])) ≡ true
  unfolding ids_after has
  has-ids_after i (recorded d) h = ground (arith, h.logged)
  has-ids_after i (executing j) h = h.logged
  has-ids_after i warned h = h.logged
  has-ids_after i prompted h = h.logged
  has-ids_after i (published t) h = h.logged

  note-Logged : (i : String) (e : Effect) → Logged i col → Logged i (note e col)
  unfolding note
  note-Logged i e h = record { logged = rw (ids_after-snoc [] col.trace e) (has-ids_after i e h) }

  publish_event-IsAudited : (t : String) → IsAudited col → IsAudited (publish_event t col)
  unfolding publish_event
  publish_event-IsAudited t h =
      if_ind IsAudited col.has_event_bus (λ _. note-IsAudited (published t) h tt) (λ _. h)

  publish_event-Logged : (i t : String) → Logged i col → Logged i (publish_event t col)
  unfolding publish_event
  publish_event-Logged i t h =
      if_ind (Logged i) col.has_event_bus (λ _. note-Logged i (published t) h) (λ _. h)

  module _ (req : OverrideRequest) (result : OverrideResult) where
    record_attempt-IsAudited : IsAudited col → IsAudited (record_attempt req result col)
    unfolding record_attempt note entry_of
    record_attempt-IsAudited h = record { audited = Audited-snoc [] col.trace _ h.audited tt }

    record_attempt-Logged :
        result.approved ≡ true → Logged req.request_id (record_attempt req result col)
    unfolding record_attempt note entry_of ids_after has
    record_attempt-Logged h = record {
      logged = rw (ids_after-snoc [] col.trace) (ground (arith, ==-refl req.request_id));
    }

module _ (req : OverrideRequest) where
  deny-IsAudited :
      (denial : Denial) (col : CommandOverrideLayer)
      → IsAudited col
      → IsAudited (deny req denial col).1
  unfolding deny
  deny-IsAudited denial col h =
      publish_event-IsAudited _ "OVERRIDE_DENIED"
        (note-IsAudited _ warned (record_attempt-IsAudited col req (refusal req denial) h) tt)

  decline-IsAudited : (col : CommandOverrideLayer) → IsAudited col → IsAudited (decline req col).1
  unfolding decline
  decline-IsAudited col h =
      publish_event-IsAudited _ "OVERRIDE_DECLINED"
        (record_attempt-IsAudited col req (refusal req declined) h)

  execute-IsAudited :
      (result : OverrideResult) (f : Option (Outcome String String)) (col : CommandOverrideLayer)
      → IsAudited col
      → Logged req.request_id col
      → IsAudited (execute req result f col).1
  unfolding execute
  execute-IsAudited result none col h logged = h
  execute-IsAudited result (some (ok out)) col h logged =
      publish_event-IsAudited _ "OVERRIDE_EXECUTED" (
        record_attempt-IsAudited _ req _
          (note-IsAudited col (executing req.request_id) h logged.logged))
  execute-IsAudited result (some (raise m)) col h logged =
      publish_event-IsAudited _ "OVERRIDE_FAILED" (
        record_attempt-IsAudited _ req _
          (note-IsAudited col (executing req.request_id) h logged.logged))

  approve-IsAudited :
      (f : Option (Outcome String String)) (col : CommandOverrideLayer)
      → IsAudited col
      → IsAudited (approve req f col).1
  unfolding approve approval
  approve-IsAudited f col h =
      execute-IsAudited (approval req) f _
        (publish_event-IsAudited _ "OVERRIDE_APPROVED"
          (record_attempt-IsAudited col req (approval req) h))
        (publish_event-Logged _ req.request_id "OVERRIDE_APPROVED"
          (record_attempt-Logged col req (approval req) refl))

module _ (args : Arguments) (inputs : Inputs) where
  ask-IsAudited :
      (req : OverrideRequest) (col : CommandOverrideLayer)
      → IsAudited col
      → IsAudited (ask args inputs req col).1
  unfolding ask
  ask-IsAudited req col h =
      let start = note-IsAudited col warned h tt in
      let asked = note-IsAudited (note warned col) prompted start tt in
      elim (Bool-cases args.confirm) [
        | inl forced ↦ rw forced (approve-IsAudited req args.execute_fn _ start)
        | inr free ↦ elim (Bool-cases (interactive_confirm inputs.answer)) [
          | inl agreed ↦ rw (free, agreed) (approve-IsAudited req args.execute_fn _ asked)
          | inr refused ↦ rw (free, refused) (decline-IsAudited req _ asked)
        ]
      ]

  respond-IsAudited :
      (denial : Denial) (req : OverrideRequest) (col : CommandOverrideLayer)
      → IsAudited col
      → IsAudited (respond denial args inputs req col).1
  unfolding respond
  respond-IsAudited no_denial req col h = ask-IsAudited req col h
  respond-IsAudited _ req col h = deny-IsAudited req _ col h

  -- If so far no `execute_fn` was called before the approval of its request was logged, none is in one
  -- more request, whatever it asks for.
  pub request_override-IsAudited :
      (col : CommandOverrideLayer) → IsAudited col → IsAudited (request_override col args inputs).1
  unfolding request_override
  request_override-IsAudited col h =
      respond-IsAudited (validate col.guard_bridge (new_request args inputs))
        (new_request args inputs) col h
