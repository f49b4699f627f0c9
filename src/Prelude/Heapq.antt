-- ===== src/Prelude/Heapq.antt =====
-- The standard library's `heapq`, by what it documents: a heap whose root is an entry that no other
-- one is less than. The entries stand in their order, so the root is the head of the list, and
-- `heappop` takes it; the layout of the array is left out. The order is an instance argument.
use Prim.Native.Nat.{suc}
use mathlib.Core.Path.{◌≡◌, refl}
use mathlib.Core.Bool.{Bool, true, false}
use mathlib.Core.List.{List, [], ◌∷◌}
use mathlib.Core.Logic.{inl, inr}
use native.Mathlib.Omega.{arith}
use aura_aioscpu.Prelude.Tests.{if◌then◌else◌, Bool-cases, nat_eq, string_eq}
use aura_aioscpu.Prelude.Lists.{length, All}

-- `__lt__` of the entries: a weak order.
pub record LessThan {ℓ} (A : Type ℓ) : Type ℓ where
  pub less : A → A → Bool
  pub asymmetric : (a b : A) → less a b ≡ true → less b a ≡ false
  pub negatively_transitive : (a b c : A) → less b a ≡ false → less c b ≡ false → less c a ≡ false

module _ {ℓ} {A : Type ℓ} ⦃o : LessThan A⦄ where
  unfoldable pub heappush : A → List A → List A
  heappush x [] = x ∷ []
  heappush x (y ∷ ys) = if o.less x y then x ∷ y ∷ ys else y ∷ heappush x ys

  -- `heapify` of a list, entry by entry.
  unfoldable pub heapify : List A → List A
  heapify [] = []
  heapify (x ∷ xs) = heappush x (heapify xs)

  -- No entry is less than one before it.
  abbrev pub IsSorted : List A → Type ℓ
  IsSorted [] = Unit
  IsSorted (x ∷ xs) = All (λ y. o.less y x ≡ false) xs × IsSorted xs

  pub All-heappush {κ} :
      (P : A → Type κ) (x : A) (xs : List A) → P x → All P xs → All P (heappush x xs)
  unfolding heappush
  All-heappush P x [] px h = (px, h)
  All-heappush P x (y ∷ ys) px h = elim (Bool-cases (o.less x y)) [
    | inl first ↦ rw first (px, h)
    | inr later ↦ rw later (h.0, All-heappush P x ys px h.1)
  ]

  All-below :
      (x y : A) (ys : List A)
      → o.less y x ≡ false
      → All (λ z. o.less z y ≡ false) ys
      → All (λ z. o.less z x ≡ false) ys
  All-below x y [] below h = tt
  All-below x y (z ∷ zs) below h =
      (o.negatively_transitive x y z below h.0, All-below x y zs below h.1)

  pub heappush-IsSorted : (x : A) (xs : List A) → IsSorted xs → IsSorted (heappush x xs)
  unfolding heappush
  heappush-IsSorted x [] h = (tt, tt)
  heappush-IsSorted x (y ∷ ys) h = elim (Bool-cases (o.less x y)) [
    | inl first ↦
        let below : o.less y x ≡ false = o.asymmetric x y first in
        rw first ((below, All-below x y ys below h.0), h)
    | inr later ↦ rw later (All-heappush _ x ys later h.0, heappush-IsSorted x ys h.1)
  ]

  pub length-heappush : (x : A) (xs : List A) → length (heappush x xs) ≡ suc (length xs)
  unfolding heappush
  length-heappush x [] = refl
  length-heappush x (y ∷ ys) = ground (arith, length-heappush x ys)

  pub All-heapify {κ} : (P : A → Type κ) (xs : List A) → All P xs → All P (heapify xs)
  unfolding heapify
  All-heapify P [] h = h
  All-heapify P (x ∷ xs) h = All-heappush P x (heapify xs) h.0 (All-heapify P xs h.1)

  pub heapify-IsSorted : (xs : List A) → IsSorted (heapify xs)
  unfolding heapify
  heapify-IsSorted [] = tt
  heapify-IsSorted (x ∷ xs) = heappush-IsSorted x (heapify xs) (heapify-IsSorted xs)
