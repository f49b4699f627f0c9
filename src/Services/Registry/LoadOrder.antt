-- ===== src/Services/Registry/LoadOrder.antt =====
-- Every service stands in the load order of services/registry.py, and no name stands in it twice.
use mathlib.Core.Path.{subst}
use aura_aioscpu.Prelude.{
  Bool-cases, string_eq, nat_eq, ◌==◌, ==_iff, ==-refl, length, has, has-add, has-append, IsUnique,
  append-IsUnique, keys, ℕ, zero, suc, String, ◌≡◌, sym, inl, inr, true, false, List, [], ◌∷◌,
  arith,
}
use aura_aioscpu.Services.Registry.Descriptors.{ServiceDescriptor}
use aura_aioscpu.Services.Registry.Order.{
  Visit, mark, finish, visit_all, dependencies, visit, order_of,
}
use aura_aioscpu.Services.Registry.Search.{
  Grows, visit_all-Grows, visit_seen, visit_new, visit-Grows, visit_marks,
}

-- Of a search: no name is in the order twice, and those in it are marked.
pub record IsOrderly (s : Visit) : Type 0 where
  pub unique : IsUnique s.order
  pub marked : (v : String) → has v s.order ≡ true → has v s.visited ≡ true

finish-IsOrderly :
    (name : String) (s t : Visit)
    → has name s.visited ≡ false
    → IsOrderly s
    → Grows (mark name s) t
    → IsOrderly t
    → IsOrderly (finish name t)
unfolding mark finish has
finish-IsOrderly name s t new h g k =
    let at_mark : has name (mark name s).visited ≡ true =
      ground (arith, has-add name name s.visited, ==-refl name) in
    record {
      unique =
          append-IsUnique t.order name
            (elim (Bool-cases (has name t.order)) [
              | inr absent ↦ absent
              | inl there ↦ elim (g.fresh name there) [
                | inl before ↦ ground (arith, h.marked name before)
                | inr unmarked ↦ ground (arith, at_mark)
              ]
            ])
            k.unique;
      marked = λ v m. elim (Bool-cases (has v t.order)) [
        | inl before ↦ k.marked v before
        | inr last ↦
            let e : v ≡ name = ground (arith, has-append v t.order (name ∷ []), ==_iff v name) in
            subst (λ w. has w t.visited ≡ true) (sym e) (g.visited_stays name at_mark)
      ];
    }

visit_all-IsOrderly :
    (f : String → Visit → Visit)
    → ((d : String) (s : Visit) → IsOrderly s → IsOrderly (f d s))
    → (ds : List String) (s : Visit) → IsOrderly s
    → IsOrderly (visit_all f ds s)
unfolding visit_all
visit_all-IsOrderly f h [] s k = k
visit_all-IsOrderly f h (d ∷ ds) s k = visit_all-IsOrderly f h ds (f d s) (h d s k)

module _ {I F : Type 0} (reg : List (String × ServiceDescriptor I F)) where
  visit-IsOrderly :
      (n : ℕ) (name : String) (s : Visit) → IsOrderly s → IsOrderly (visit n reg name s)
  unfolding visit mark
  visit-IsOrderly zero name s h = h
  visit-IsOrderly (suc n) name s h = elim (Bool-cases (has name s.visited)) [
    | inl old ↦ subst IsOrderly (sym (visit_seen reg (suc n) name s old)) h
    | inr new ↦
        let marked : IsOrderly (mark name s) = record {
          unique = h.unique;
          marked = λ v m. ground (arith, h.marked v m, has-add v name s.visited);
        } in
        subst IsOrderly (sym (visit_new reg n name s new)) (
          finish-IsOrderly name s _ new h
            (visit_all-Grows (visit n reg) (visit-Grows reg n) (dependencies reg name)
              (mark name s))
            (visit_all-IsOrderly (visit n reg) (visit-IsOrderly n) (dependencies reg name)
              (mark name s) marked))
  ]

  -- No name stands in the load order twice, whatever the services depend on.
  pub order_of-IsUnique : IsUnique (order_of reg)
  unfolding order_of IsUnique has
  order_of-IsUnique =
      (visit_all-IsOrderly (visit (suc (length reg)) reg) (visit-IsOrderly (suc (length reg)))
        (keys reg) (record { visited = []; order = [] })
        (record { unique = tt; marked = λ v m. m })).unique

  visit_all-marks :
      (n : ℕ) (ds : List String) (s : Visit) (v : String)
      → has v ds ≡ true
      → has v (visit_all (visit (suc n) reg) ds s).visited ≡ true
  unfolding visit_all has
  visit_all-marks n [] s v m = ground (arith, m)
  visit_all-marks n (d ∷ ds) s v m = elim (Bool-cases (v == d)) [
    | inl here ↦
        let e = (==_iff v d).0 here in
        let g = visit_all-Grows (visit (suc n) reg) (visit-Grows reg (suc n)) ds _ in
        g.visited_stays v (
          subst (λ w. has w (visit (suc n) reg d s).visited ≡ true) (sym e) (visit_marks reg n d s))
    | inr there ↦ visit_all-marks n ds _ v (ground arith)
  ]

  -- Every service of the registry stands in the load order, whatever the services depend on.
  pub has-order_of : (name : String) → has name (keys reg) ≡ true → has name (order_of reg) ≡ true
  unfolding order_of has
  has-order_of name registered =
      let n = length reg in
      let start : Visit = record { visited = []; order = [] } in
      let g = visit_all-Grows (visit (suc n) reg) (visit-Grows reg (suc n)) (keys reg) start in
      elim (g.finished name (visit_all-marks n (keys reg) start name registered)) [
        | inl before ↦ ground (arith, before)
        | inr done ↦ done
      ]
