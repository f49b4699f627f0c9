-- ===== src/Kernel/Override/Guard.antt =====
-- What `OverrideGuard.validate` and `request_override` of kernel/override.py let through.
use aura_aioscpu.Prelude.{
  string_eq, nat_eq, ==_iff, has, ℕ, zero, suc, String, ◌≡◌, refl, ◌↔◌, ◌⊎◌, inl, inr, true, false,
  ◌||◌, Option, none, some, arith,
}
use aura_aioscpu.Prelude.Text.{is_space, is_empty, concat, replace, all_chars, is_empty-strip}
use aura_aioscpu.Kernel.Override.Requests.{
  no_denial, OverrideRequest, Bridge, CommandOverrideLayer, overrideable_actions,
  protected_partitions, Arguments, Inputs,
}
use aura_aioscpu.Kernel.Override.{
  partition_of, is_protected, validate, interactive_confirm, new_request, refusal, approval, deny,
  decline, execute, approve, ask, respond, request_override, wire_bridge,
}

-- The conditions under which a request is safe.
pub record IsSafe (bridge : Option Bridge) (req : OverrideRequest) : Type 0 where
  pub listed : has req.action overrideable_actions ≡ true
  pub supported :
      (b : Bridge)
      → bridge ≡ some b
      → has (replace "." "_" req.action) b.available_capabilities ≡ true
  pub unprotected : is_protected req.target_path ≡ false
  pub justified : all_chars is_space req.reason ≡ false

validate-IsSafe :
    (bridge : Option Bridge) (req : OverrideRequest)
    → validate bridge req ≡ no_denial
    → IsSafe bridge req
unfolding validate
validate-IsSafe bridge req h = record {
  listed = ground arith;
  supported = λ b e. ground arith;
  unprotected = ground arith;
  justified = ground (arith, is_empty-strip req.reason);
}

is_empty-all_chars : (s : String) → is_empty s ≡ true → all_chars is_space s ≡ true
unfolding all_chars
is_empty-all_chars String.[] h = refl
is_empty-all_chars (String.◌∷◌ c s) h = cc

IsSafe-validate :
    (bridge : Option Bridge) (req : OverrideRequest)
    → IsSafe bridge req
    → validate bridge req ≡ no_denial
unfolding validate
IsSafe-validate none req h =
    ground (arith, is_empty-strip req.reason, is_empty-all_chars req.reason)
IsSafe-validate (some b) req h =
    ground (arith, is_empty-strip req.reason, is_empty-all_chars req.reason, h.supported b refl)

-- `validate` approves exactly the safe requests.
pub validate_iff :
    (bridge : Option Bridge) (req : OverrideRequest)
    → (validate bridge req ≡ no_denial) ↔ IsSafe bridge req
validate_iff bridge req = (validate-IsSafe bridge req, IsSafe-validate bridge req)

module _ (col : CommandOverrideLayer) (args : Arguments) (inputs : Inputs) where
  -- A request is approved exactly if it is safe and either forced or confirmed.
  pub approved_iff : ((request_override col args inputs).0.approved ≡ true) ↔ (
      IsSafe col.guard_bridge (new_request args inputs)
      × ((args.confirm || interactive_confirm inputs.answer) ≡ true))
  unfolding request_override respond ask approve decline deny execute new_request approval refusal
  approved_iff = ground (arith, validate_iff col.guard_bridge (new_request args inputs))

  -- `execute_fn` has been run to its end only for an approved request.
  pub executed_approved :
      (request_override col args inputs).0.executed ≡ true
      → (request_override col args inputs).0.approved ≡ true
  unfolding request_override respond ask approve decline deny execute new_request approval refusal
  executed_approved h = ground arith

-- The host bridge that `Kernel.start` wires into the layer is never asked: the guard keeps the one of
-- its construction.
request_override-wire_bridge :
    (col : CommandOverrideLayer) (b : Bridge) (args : Arguments) (inputs : Inputs)
    → (request_override (wire_bridge b col) args inputs).0 ≡ (request_override col args inputs).0
unfolding request_override wire_bridge respond ask approve decline deny execute new_request approval
    refusal
request_override-wire_bridge col b args inputs = ground arith

-- `n` slashes before a path.
abbrev slashes : ℕ → String → String
slashes zero path = path
slashes (suc n) path = concat "/" (slashes n path)

partition_of-slashes : (n : ℕ) (path : String) → partition_of (slashes n path) ≡ partition_of path
unfolding partition_of
partition_of-slashes zero path = refl
partition_of-slashes (suc n) path = partition_of-slashes n path

is_empty-slashes :
    (n : ℕ) (path : String) → is_empty path ≡ false → is_empty (slashes n path) ≡ false
is_empty-slashes zero path h = h
is_empty-slashes (suc n) path h = refl

is_protected-slashes :
    (n : ℕ) (path : String)
    → is_empty path ≡ false
    → is_protected (slashes n path) ≡ has (partition_of path) protected_partitions
unfolding is_protected
is_protected-slashes n path h = rw (partition_of-slashes n path, is_empty-slashes n path h)

protected_cases : (p : String) → has p protected_partitions ≡ true → (p ≡ "boot") ⊎ (p ≡ "system")
unfolding has
protected_cases p h = ground (arith, ==_iff p "boot", ==_iff p "system")

-- A path below a protected partition is refused, with any number of slashes in front.
is_protected-below :
    (n : ℕ) (p rest : String)
    → has p protected_partitions ≡ true
    → is_protected (slashes n (concat p (concat "/" rest))) ≡ true
unfolding partition_of has
is_protected-below n p rest h = elim (protected_cases p h) [
  | inl e ↦ rw e (is_protected-slashes n (concat "boot/" rest) refl)
  | inr e ↦ rw e (is_protected-slashes n (concat "system/" rest) refl)
]

-- No path that begins with `./` is refused, whatever partition it leads to.
is_protected-dot : (n : ℕ) (rest : String) → is_protected (slashes n (concat "./" rest)) ≡ false
unfolding partition_of has
is_protected-dot n rest = is_protected-slashes n (concat "./" rest) refl
