-- ===== src/Prelude/Deque.antt =====
-- The last elements of a list, which a `deque` with a `maxlen` holds.
use Prim.Native.Nat.{ℕ, zero, suc, ◌+◌, ◌-◌, ◌≤◌, ◌<◌}
use mathlib.Core.Path.{◌≡◌, refl, sym, ap, ◌∙◌}
use mathlib.Core.List.{List, [], ◌∷◌, ◌++◌}
use native.Mathlib.Omega.{arith}
use aura_aioscpu.Prelude.Lists.{length, drop, length-append, length-drop}
use aura_aioscpu.Prelude.Tests.{ltb, if◌then◌else◌, ltb→lt, if_ind, string_eq, nat_eq}

-- `append` on a deque with a `maxlen`: the oldest element goes where there are too many.
abbrev pub push_bounded {ℓ} : {A : Type ℓ} → ℕ → A → List A → List A
push_bounded max x xs =
    if ltb max (length (xs ++ x ∷ [])) then drop 1 (xs ++ x ∷ []) else xs ++ x ∷ []

-- The last `n` of a list.
unfoldable pub latest {ℓ} : {A : Type ℓ} → ℕ → List A → List A
latest n xs = drop (length xs - n) xs

module _ {ℓ} {A : Type ℓ} where
  drop-append : (n : ℕ) (xs ys : List A) → n ≤ length xs → drop n (xs ++ ys) ≡ drop n xs ++ ys
  drop-append zero xs ys h = refl
  drop-append (suc n) [] ys h = ground (arith, h)
  drop-append (suc n) (x ∷ xs) ys h = drop-append n xs ys (omega (arith, h))

  pub drop_nil : (n : ℕ) → drop {A = A} n [] ≡ []
  drop_nil zero = refl
  drop_nil (suc n) = refl

  pub drop-drop : (n k : ℕ) (xs : List A) → drop n (drop k xs) ≡ drop (k + n) xs
  drop-drop n zero xs = let e : n ≡ 0 + n = omega arith in ap (λ i. drop i xs) e
  drop-drop zero (suc k) [] = sym (drop_nil (suc k + 0))
  drop-drop (suc n) (suc k) [] = sym (drop_nil (suc k + suc n))
  drop-drop n (suc k) (x ∷ xs) =
      let e : suc (k + n) ≡ suc k + n = omega arith in
      drop-drop n k xs ∙ ap (λ i. drop i (x ∷ xs)) e

  pub length-latest_le : (n : ℕ) (xs : List A) → length (latest n xs) ≤ n
  unfolding latest
  length-latest_le n xs = omega (arith, length-drop (length xs - n) xs)

  -- One more element, and the first one dropped when there are too many.
  pub latest-append_one :
      (n : ℕ) (x : A) (xs : List A)
      → (if ltb n (length (latest n xs ++ x ∷ []))
          then drop 1 (latest n xs ++ x ∷ [])
          else latest n xs ++ x ∷ [])
        ≡ latest n (xs ++ x ∷ [])
  unfolding latest
  latest-append_one n x xs =
      let one = length-append xs (x ∷ []) in
      let k = length xs - n in
      let kept = drop-append k xs (x ∷ []) (omega arith) in
      let size = length-append (drop k xs) (x ∷ []) in
      let less = length-drop k xs in
      if_ind (λ l. l ≡ drop (length (xs ++ x ∷ []) - n) (xs ++ x ∷ []))
        (ltb n (length (drop k xs ++ x ∷ [])))
        (λ full.
          let many : n < length (drop k xs ++ x ∷ []) = ltb→lt n _ full in
          ap (drop 1) (sym kept)
          ∙ drop-drop 1 k (xs ++ x ∷ [])
          ∙ ap (λ i. drop i (xs ++ x ∷ [])) (omega (arith, one, size, less, many)))
        (λ room.
          let few : length (drop k xs ++ x ∷ []) ≤ n = ground (arith, room) in
          sym kept ∙ ap (λ i. drop i (xs ++ x ∷ [])) (omega (arith, one, size, less, few)))

  pub latest_nil : (n : ℕ) → latest {A = A} n [] ≡ []
  unfolding latest
  latest_nil n = drop_nil (0 - n)
