-- ===== src/Services/Registry/Fuel.antt =====
-- The fuel of services/registry.py's `visit`: the services that are not marked yet are the measure.
use mathlib.Core.Path.{subst}
use aura_aioscpu.Prelude.{
  Bool-cases, Option-cases, string_eq, nat_eq, ==-refl, length, has, add, difference, has-add,
  length-difference_le, length-difference_lt, length-difference_nil, lookup, keys, has-keys,
  length-keys, has_key_found, ℕ, zero, suc, ◌+◌, ◌≤◌, ◌<◌, String, ◌≡◌, refl, sym, ap, ◌∙◌, ◌⊎◌,
  inl, inr, true, false, List, [], ◌∷◌, arith,
}
use aura_aioscpu.Services.Registry.Descriptors.{ServiceDescriptor}
use aura_aioscpu.Services.Registry.Order.{
  Visit, mark, finish, visit_all, dependencies, visit, order_of,
}
use aura_aioscpu.Services.Registry.Search.{Grows, visit_seen, visit_new, visit-Grows}

module _ {I F : Type 0} (reg : List (String × ServiceDescriptor I F)) where
  -- The services that no visit has marked.
  unfoldable pub pending : Visit → ℕ
  pending s = length (difference (keys reg) s.visited)

  pub pending-Grows : (s t : Visit) → Grows s t → pending t ≤ pending s
  unfolding pending
  pending-Grows s t g = length-difference_le (keys reg) s.visited t.visited g.visited_stays

  -- After a mark, the fuel that is left is enough for the dependencies, if there are any.
  pub pending-mark :
      (n : ℕ) (name : String) (s : Visit)
      → has name s.visited ≡ false
      → pending s < suc n
      → (dependencies reg name ≡ []) ⊎ (pending (mark name s) < n)
  unfolding pending mark dependencies
  pending-mark n name s new enough = elim (Option-cases (lookup name reg)) [
    | inl absent ↦ inl (simp (absent, dependencies) refl)
    | inr (desc, found) ↦
        let registered : has name (keys reg) ≡ true =
          has-keys name reg ∙ has_key_found name desc reg found in
        let less =
          length-difference_lt (keys reg) s.visited (add name s.visited) name
            (λ v m. ground (arith, has-add v name s.visited)) registered new
            (ground (arith, has-add name name s.visited, ==-refl name)) in
        inr (omega (arith, less, enough))
  ]

  pub pending_start : pending (record { visited = []; order = [] }) ≡ length reg
  unfolding pending
  pending_start = length-difference_nil (keys reg) ∙ length-keys reg

  visit_all_enough :
      (f g : String → Visit → Visit) (k : ℕ)
      → ((d : String) (s : Visit) → pending s < k → f d s ≡ g d s)
      → ((d : String) (s : Visit) → Grows s (f d s))
      → (ds : List String) (s : Visit) → pending s < k
      → visit_all f ds s ≡ visit_all g ds s
  unfolding visit_all
  visit_all_enough f g k same grows [] s less = refl
  visit_all_enough f g k same grows (d ∷ ds) s less =
      visit_all_enough f g k same grows ds (f d s)
        (omega (arith, pending-Grows s (f d s) (grows d s), less))
      ∙ ap (visit_all g ds) (same d s less)

  visit_nothing :
      (n m : ℕ) (s : Visit) → visit_all (visit n reg) [] s ≡ visit_all (visit m reg) [] s
  unfolding visit_all
  visit_nothing n m s = refl

  visit_enough :
      (n m : ℕ) (name : String) (s : Visit)
      → pending s < n
      → n ≤ m
      → visit n reg name s ≡ visit m reg name s
  visit_enough zero m name s enough le = ground (arith, enough)
  visit_enough (suc n) zero name s enough le = ground (arith, le)
  visit_enough (suc n) (suc m) name s enough le = elim (Bool-cases (has name s.visited)) [
    | inl old ↦ visit_seen reg (suc n) name s old ∙ sym (visit_seen reg (suc m) name s old)
    | inr new ↦
        visit_new reg n name s new
        ∙ ap (finish name) (elim (pending-mark n name s new enough) [
          | inl none_to_visit ↦
              subst
                (λ ds.
                  visit_all (visit n reg) ds (mark name s)
                  ≡ visit_all (visit m reg) ds (mark name s))
                (sym none_to_visit) (visit_nothing n m (mark name s))
          | inr less ↦
              visit_all_enough (visit n reg) (visit m reg) n
                (λ d t few. visit_enough n m d t few (omega (arith, le))) (visit-Grows reg n)
                (dependencies reg name) (mark name s) less
        ])
        ∙ sym (visit_new reg m name s new)
  ]

  -- More fuel than one for each service does not change the load order: the recursion has ended
  -- before the fuel has.
  pub order_of_enough :
      (extra : ℕ)
      → (visit_all
          (visit (suc (length reg) + extra) reg)
          (keys reg)
          (record { visited = []; order = [] })).order
        ≡ order_of reg
  unfolding order_of
  order_of_enough extra =
      let n = suc (length reg) in
      ap (λ (s : Visit). s.order)
        (sym (
          visit_all_enough (visit n reg) (visit (n + extra) reg) n
            (λ d t few. visit_enough n (n + extra) d t few (omega arith)) (visit-Grows reg n)
            (keys reg) (record { visited = []; order = [] }) (omega (arith, pending_start))))
