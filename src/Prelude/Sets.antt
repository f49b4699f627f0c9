-- ===== src/Prelude/Sets.antt =====
-- Python's sets of keys: lists that are read only through membership.
use Prim.Native.Nat.{◌≤◌, ◌<◌}
use mathlib.Core.Path.{◌≡◌, refl, ap, sym, ◌∙◌}
use mathlib.Core.Bool.{true, Bool, false, not, ◌&&◌, ◌||◌}
use mathlib.Core.List.{List, [], ◌∷◌, ◌++◌}
use native.Mathlib.Omega.{arith}
use mathlib.Core.Logic.{inl, inr}
use aura_aioscpu.Prelude.Lists.{length, All}
use aura_aioscpu.Prelude.Tests.{if◌then◌else◌, Bool-cases, Eq, string_eq, nat_eq, ◌==◌, ==_iff}

module _ {ℓ} {A : Type ℓ} ⦃e : Eq A⦄ where
  -- `x in s`
  unfoldable pub has : A → List A → Bool
  has a [] = false
  has a (x ∷ xs) = a == x || has a xs

  -- `s.add(x)`
  unfoldable pub add : A → List A → List A
  unfolding has
  add a s = if has a s then s else a ∷ s

  -- `s - t`
  unfoldable pub difference : List A → List A → List A
  unfolding has
  difference [] t = []
  difference (x ∷ xs) t = if has x t then difference xs t else x ∷ difference xs t

  -- `s.discard(x)`
  unfoldable pub discard : A → List A → List A
  discard a [] = []
  discard a (x ∷ xs) = if x == a then discard a xs else x ∷ discard a xs

  -- `s | t`
  unfoldable pub union : List A → List A → List A
  union s t = s ++ t

  pub has-add : (b a : A) (s : List A) → has b (add a s) ≡ (b == a || has b s)
  unfolding add
  has-add b a s = ground (arith, ==_iff b a, Bool-cases (has a s), Bool-cases (has b s))

  pub has-discard : (b a : A) (s : List A) → has b (discard a s) ≡ (has b s && not (b == a))
  unfolding has discard
  has-discard b a [] = refl
  has-discard b a (x ∷ xs) = ground (arith, ==_iff b x, ==_iff x a, ==_iff b a, has-discard b a xs)

  pub has-append : (b : A) (s t : List A) → has b (s ++ t) ≡ (has b s || has b t)
  unfolding has
  has-append b [] t = refl
  has-append b (x ∷ xs) t = ground (arith, has-append b xs t)

  pub has-union : (b : A) (s t : List A) → has b (union s t) ≡ (has b s || has b t)
  unfolding union
  has-union b s t = has-append b s t

  pub has-difference : (b : A) (s t : List A) → has b (difference s t) ≡ (has b s && not (has b t))
  unfolding has difference
  has-difference b [] t = refl
  has-difference b (x ∷ xs) t = ground (arith, ==_iff b x, has-difference b xs t)

  -- What holds of every element of a set holds of a member.
  pub All-has {κ} : (P : A → Type κ) (xs : List A) → All P xs → (a : A) → has a xs ≡ true → P a
  unfolding has
  All-has P [] h a m = cc
  All-has P (x ∷ xs) h a m = elim (Bool-cases (a == x)) [
    | inl here ↦ rw ((==_iff a x).0 here) h.0
    | inr other ↦ All-has P xs h.1 a (rw (other, has) at m)
  ]

  -- What is left of a list without a set is less, the larger the set.
  pub length-difference_le :
      (xs s t : List A)
      → ((a : A) → has a s ≡ true → has a t ≡ true)
      → length (difference xs t) ≤ length (difference xs s)
  unfolding difference
  length-difference_le [] s t h = omega arith
  length-difference_le (x ∷ xs) s t h = ground (arith, h x, length-difference_le xs s t h)

  pub length-difference_lt :
      (xs s t : List A) (a : A)
      → ((b : A) → has b s ≡ true → has b t ≡ true)
      → has a xs ≡ true
      → has a s ≡ false
      → has a t ≡ true
      → length (difference xs t) < length (difference xs s)
  unfolding difference has
  length-difference_lt [] s t a h m out inside = ground (arith, m)
  length-difference_lt (x ∷ xs) s t a h m out inside = elim (Bool-cases (a == x)) [
    | inl here ↦
        let e = (==_iff a x).0 here in
        let f : has x s ≡ false = ap (λ b. has b s) (sym e) ∙ out in
        let g : has x t ≡ true = ap (λ b. has b t) (sym e) ∙ inside in
        rw (f, g) ground (arith, length-difference_le xs s t h)
    | inr other ↦
        let later : has a xs ≡ true = ground arith in
        ground (arith, h x, length-difference_lt xs s t a h later out inside)
  ]

  pub length-difference_nil : (xs : List A) → length (difference xs []) ≡ length xs
  unfolding difference has
  length-difference_nil [] = refl
  length-difference_nil (x ∷ xs) = omega (arith, length-difference_nil xs)

  -- Nothing stands in the list twice.
  unfoldable pub IsUnique : List A → Type 0
  unfolding has
  IsUnique [] = Unit
  IsUnique (x ∷ xs) = (has x xs ≡ false) × IsUnique xs

  pub append-IsUnique :
      (xs : List A) (a : A) → has a xs ≡ false → IsUnique xs → IsUnique (xs ++ a ∷ [])
  unfolding IsUnique has
  append-IsUnique [] a new u = (refl, tt)
  append-IsUnique (x ∷ xs) a new u = (
    ground (arith, u.0, has-append x xs (a ∷ []), ==_iff x a, ==_iff a x),
    append-IsUnique xs a (ground (arith, ==_iff a x)) u.1,
  )

  -- What stands behind the front of such a list is not in the front.
  pub has-front : (xs ys : List A) (a : A) → IsUnique (xs ++ a ∷ ys) → has a xs ≡ false
  unfolding IsUnique has
  has-front [] ys a u = refl
  has-front (x ∷ xs) ys a u =
      ground (arith, u.0, has-front xs ys a u.1, has-append x xs (a ∷ ys), ==_iff a x, ==_iff x a)
