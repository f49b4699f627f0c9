-- ===== src/Prelude/Dict.antt =====
-- Python's dictionaries: association lists in the order of insertion.
use mathlib.Core.Path.{◌≡◌, refl, ap, sym}
use mathlib.Core.Bool.{Bool, true, false}
use mathlib.Core.List.{List, [], ◌∷◌, ◌++◌, map}
use mathlib.Core.Option.{Option, none, some}
use mathlib.Core.Logic.{inl, inr}
use mathlib.Core.Bool.{not, ◌&&◌, ◌||◌}
use mathlib.Core.Path.{subst}
use native.Mathlib.Omega.{arith}
use aura_aioscpu.Prelude.Lists.{length, All}
use aura_aioscpu.Prelude.Sets.{has, IsUnique}
use aura_aioscpu.Prelude.Tests.{
  if◌then◌else◌, Bool-cases, Option-cases, if_ind, Eq, string_eq, nat_eq, ◌==◌, ==_iff, ==-refl,
}

module _ {ℓ κ} {K : Type ℓ} {V : Type κ} ⦃e : Eq K⦄ where
  -- `d.get(k)`
  unfoldable pub lookup : K → List (K × V) → Option V
  lookup k [] = none
  lookup k ((j, v) ∷ m) = if j == k then some v else lookup k m

  -- `d[k] = v`: a key that is present keeps its place
  unfoldable pub insert : K → V → List (K × V) → List (K × V)
  insert k v [] = (k, v) ∷ []
  insert k v ((j, w) ∷ m) = if j == k then (j, v) ∷ m else (j, w) ∷ insert k v m

  -- `del d[k]`
  unfoldable pub erase : K → List (K × V) → List (K × V)
  erase k [] = []
  erase k ((j, w) ∷ m) = if j == k then erase k m else (j, w) ∷ erase k m

  -- `k in d`
  abbrev pub has_key : K → List (K × V) → Bool
  has_key k m = elim (lookup k m) [ none ↦ false | some _ ↦ true ]

  pub lookup-insert :
      (new k : K) (v : V) (d : List (K × V))
      → lookup k (insert new v d) ≡ (if new == k then some v else lookup k d)
  unfolding lookup insert
  lookup-insert k j v [] = refl
  lookup-insert k j v ((i, w) ∷ m) =
      ground (arith, ==_iff k j, ==_iff i k, ==_iff i j, lookup-insert k j v m)

  pub lookup-erase :
      (k j : K) (m : List (K × V)) → lookup j (erase k m) ≡ (if k == j then none else lookup j m)
  unfolding lookup erase
  lookup-erase k j [] = ground arith
  lookup-erase k j ((i, w) ∷ m) =
      ground (arith, ==_iff k j, ==_iff i k, ==_iff i j, lookup-erase k j m)

  -- What every value of a dictionary satisfies.
  pub record AllValues {μ} (P : V → Type μ) (m : List (K × V)) : Type (ℓ ⊔ κ ⊔ μ) where
    pub at : (k : K) (v : V) → lookup k m ≡ some v → P v

  -- The value that is replaced need not satisfy it.
  pub AllValues-insert_over {μ} :
      {P : V → Type μ} (k : K) (v : V) (m : List (K × V))
      → P v
      → ((j : K) (w : V) → (k == j) ≡ false → lookup j m ≡ some w → P w)
      → AllValues P (insert k v m)
  AllValues-insert_over {P} k v m p h = record {
    at = λ j w e. elim (Bool-cases (k == j)) [
      | inl same ↦ subst P (ground (arith, lookup-insert k j v m)) p
      | inr other ↦ h j w other (ground (arith, lookup-insert k j v m))
    ];
  }

  pub AllValues-insert {μ} :
      {P : V → Type μ} (k : K) (v : V) (m : List (K × V))
      → P v
      → AllValues P m
      → AllValues P (insert k v m)
  AllValues-insert k v m p h = AllValues-insert_over k v m p (λ j w _ e. h.at j w e)

  pub lookup-insert_self : (k : K) (v : V) (m : List (K × V)) → lookup k (insert k v m) ≡ some v
  lookup-insert_self k v m = rw (lookup-insert k k v m, ==-refl k) refl

-- The keys, in order.
abbrev pub keys {ℓ κ} : {K : Type ℓ} {V : Type κ} → List (K × V) → List K
keys m = map (λ e. e.0) m

pub has-keys {ℓ κ} :
    {K : Type ℓ} {V : Type κ} ⦃e : Eq K⦄ (k : K) (m : List (K × V)) → has k (keys m) ≡ has_key k m
unfolding has lookup
has-keys k [] = refl
has-keys k ((j, v) ∷ m) = ground (arith, ==_iff k j, ==_iff j k, has-keys k m)

pub length-keys {ℓ κ} : {K : Type ℓ} {V : Type κ} (m : List (K × V)) → length (keys m) ≡ length m
length-keys [] = refl
length-keys (_ ∷ m) = omega (arith, length-keys m)

pub has_key_found {ℓ κ} :
    {K : Type ℓ} {V : Type κ} ⦃e : Eq K⦄ (k : K) (v : V) (m : List (K × V))
    → lookup k m ≡ some v
    → has_key k m ≡ true
has_key_found k v m found = ap (λ o. elim o [ none ↦ false | some _ ↦ true ]) found

module _ {ℓ κ} {K : Type ℓ} {V : Type κ} ⦃e : Eq K⦄ where
  pub insert_fresh :
      (k : K) (v : V) (m : List (K × V)) → has k (keys m) ≡ false → insert k v m ≡ m ++ (k, v) ∷ []
  unfolding has insert
  insert_fresh k v [] new = refl
  insert_fresh k v ((j, w) ∷ m) new =
      let other : (j == k) ≡ false = ground (arith, ==_iff j k, ==_iff k j) in
      let later : has k (keys m) ≡ false = ground (arith) in
      rw (other) (ap (λ d. (j, w) ∷ d) (insert_fresh k v m later))

  pub has-keys-insert :
      (j k : K) (v : V) (m : List (K × V))
      → has j (keys (insert k v m)) ≡ (j == k || has j (keys m))
  unfolding has insert
  has-keys-insert j k v [] = refl
  has-keys-insert j k v ((i, w) ∷ m) =
      ground (arith, has-keys-insert j k v m, ==_iff i k, ==_iff j i, ==_iff j k)

  pub has-keys-erase :
      (j k : K) (m : List (K × V)) → has j (keys (erase k m)) ≡ (has j (keys m) && not (j == k))
  unfolding has erase
  has-keys-erase j k [] = refl
  has-keys-erase j k ((i, w) ∷ m) =
      ground (arith, has-keys-erase j k m, ==_iff i k, ==_iff j i, ==_iff j k)

  pub insert-IsUnique :
      (k : K) (v : V) (m : List (K × V)) → IsUnique (keys m) → IsUnique (keys (insert k v m))
  unfolding has insert IsUnique
  insert-IsUnique k v [] u = (refl, tt)
  insert-IsUnique k v ((j, w) ∷ m) u =
      if_ind (λ (d : List (K × V)). IsUnique (keys d)) (j == k) (λ _. u)
        (λ other.
          (ground (arith, u.0, has-keys-insert j k v m, ==_iff j k), insert-IsUnique k v m u.1))

  pub erase-IsUnique : (k : K) (m : List (K × V)) → IsUnique (keys m) → IsUnique (keys (erase k m))
  unfolding has erase IsUnique
  erase-IsUnique k [] u = tt
  erase-IsUnique k ((j, w) ∷ m) u =
      if_ind (λ (d : List (K × V)). IsUnique (keys d)) (j == k) (λ _. erase-IsUnique k m u.1)
        (λ other. (ground (arith, u.0, has-keys-erase j k m), erase-IsUnique k m u.1))

  -- What holds of every entry.
  pub insert-All {μ} :
      (P : K × V → Type μ) (k : K) (v : V) (m : List (K × V))
      → P (k, v)
      → All P m
      → All P (insert k v m)
  unfolding insert
  insert-All P k v [] p h = (p, tt)
  insert-All P k v ((j, w) ∷ m) p h = elim (Bool-cases (j == k)) [
    | inl same ↦ rw (same) (subst (λ i. P (i, v)) (sym ((==_iff j k).0 same)) p, h.1)
    | inr other ↦ rw (other) (h.0, insert-All P k v m p h.1)
  ]

  pub erase-All {μ} : (P : K × V → Type μ) (k : K) (m : List (K × V)) → All P m → All P (erase k m)
  unfolding erase
  erase-All P k [] h = h
  erase-All P k ((j, w) ∷ m) h =
      if_ind (All P) (j == k) (λ _. erase-All P k m h.1) (λ _. (h.0, erase-All P k m h.1))

  pub lookup-All {μ} :
      (P : K × V → Type μ) (k : K) (v : V) (m : List (K × V))
      → lookup k m ≡ some v
      → All P m
      → P (k, v)
  unfolding lookup
  lookup-All P k v [] found h = cc
  lookup-All P k v ((j, w) ∷ m) found h = elim (Bool-cases (j == k)) [
    | inl same ↦
        let e : some w ≡ some v = rw (same) at found in
        subst (λ x. P (k, x)) (ap (λ o. elim o [ none ↦ w | some x ↦ x ]) e)
          (subst (λ i. P (i, w)) ((==_iff j k).0 same) h.0)
    | inr other ↦ lookup-All P k v m (rw (other) at found) h.1
  ]

  pub lookup_absent : (k : K) (m : List (K × V)) → has_key k m ≡ false → lookup k m ≡ none
  lookup_absent k m missing = elim (Option-cases (lookup k m)) [
    | inl absent ↦ absent
    | inr (v, found) ↦ ground (arith, has_key_found k v m found, missing)
  ]

pub keys-append {ℓ κ} :
    {K : Type ℓ} {V : Type κ} (m d : List (K × V)) → keys (m ++ d) ≡ keys m ++ keys d
keys-append [] d = refl
keys-append (x ∷ m) d = ap (λ l. x.0 ∷ l) (keys-append m d)
