-- ===== src/Services/Registry/Search.antt =====
-- What a visit of services/registry.py's `_compute_load_order` changes: its two sets only grow, and
-- a name that is marked in a visit is in the order when the visit returns.
use mathlib.Core.Path.{subst}
use aura_aioscpu.Prelude.{
  Bool-cases, string_eq, nat_eq, ==_iff, ==-refl, has, has-add, has-append, ℕ, zero, suc, String,
  ◌≡◌, refl, sym, ap, ◌∙◌, ◌⊎◌, inl, inr, true, false, List, [], ◌∷◌, arith,
}
use aura_aioscpu.Services.Registry.Descriptors.{ServiceDescriptor}
use aura_aioscpu.Services.Registry.Order.{Visit, mark, finish, visit_all, dependencies, visit}

pub record Grows (s t : Visit) : Type 0 where
  pub visited_stays : (v : String) → has v s.visited ≡ true → has v t.visited ≡ true
  pub order_stays : (v : String) → has v s.order ≡ true → has v t.order ≡ true
  pub finished :
      (v : String) → has v t.visited ≡ true → (has v s.visited ≡ true) ⊎ (has v t.order ≡ true)
  pub fresh :
      (v : String) → has v t.order ≡ true → (has v s.order ≡ true) ⊎ (has v s.visited ≡ false)

pub Grows-refl : (s : Visit) → Grows s s
Grows-refl s = record {
  visited_stays = λ v h. h;
  order_stays = λ v h. h;
  finished = λ v h. inl h;
  fresh = λ v h. inl h;
}

pub Grows-trans : (s t u : Visit) → Grows s t → Grows t u → Grows s u
Grows-trans s t u g h = record {
  visited_stays = λ v m. h.visited_stays v (g.visited_stays v m);
  order_stays = λ v m. h.order_stays v (g.order_stays v m);
  finished = λ v m. elim (h.finished v m) [
    | inl before ↦ elim (g.finished v before) [
      | inl first ↦ inl first
      | inr done ↦ inr (h.order_stays v done)
    ]
    | inr done ↦ inr done
  ];
  fresh = λ v m. elim (h.fresh v m) [
    | inl before ↦ g.fresh v before
    | inr new ↦ elim (Bool-cases (has v s.visited)) [
      | inl old ↦ inl (ground (arith, g.visited_stays v old))
      | inr never_seen ↦ inr never_seen
    ]
  ];
}

pub visit_all-Grows :
    (f : String → Visit → Visit)
    → ((d : String) (s : Visit) → Grows s (f d s))
    → (ds : List String) (s : Visit) → Grows s (visit_all f ds s)
unfolding visit_all
visit_all-Grows f h [] s = Grows-refl s
visit_all-Grows f h (d ∷ ds) s = Grows-trans s (f d s) _ (h d s) (visit_all-Grows f h ds (f d s))

-- A visit of a name that is new: it is marked, its dependencies are visited, and it is put into the order.
pub finish-Grows :
    (name : String) (s t : Visit)
    → has name s.visited ≡ false
    → Grows (mark name s) t
    → Grows s (finish name t)
unfolding mark finish has
finish-Grows name s t new g = record {
  visited_stays = λ v m. g.visited_stays v (ground (arith, has-add v name s.visited));
  order_stays = λ v m. ground (arith, g.order_stays v m, has-append v t.order (name ∷ []));
  finished = λ v m. elim (g.finished v m) [
    | inl before ↦ ground (arith, has-add v name s.visited, has-append v t.order (name ∷ []))
    | inr done ↦ inr (ground (arith, has-append v t.order (name ∷ [])))
  ];
  fresh = λ v m. elim (Bool-cases (has v t.order)) [
    | inl before ↦ elim (g.fresh v before) [
      | inl first ↦ inl first
      | inr unseen ↦ inr (ground (arith, has-add v name s.visited))
    ]
    | inr last ↦ inr (ground (arith, has-append v t.order (name ∷ []), ==_iff v name))
  ];
}

module _ {I F : Type 0} (reg : List (String × ServiceDescriptor I F)) where
  pub visit_seen :
      (n : ℕ) (name : String) (s : Visit) → has name s.visited ≡ true → visit n reg name s ≡ s
  unfolding visit
  visit_seen zero name s old = refl
  visit_seen (suc n) name s old = simp (old, visit) refl

  pub visit_new :
      (n : ℕ) (name : String) (s : Visit)
      → has name s.visited ≡ false
      → visit (suc n) reg name s
        ≡ finish name (visit_all (visit n reg) (dependencies reg name) (mark name s))
  unfolding visit
  visit_new n name s new = simp (new, visit) refl

  pub visit-Grows : (n : ℕ) (name : String) (s : Visit) → Grows s (visit n reg name s)
  unfolding visit
  visit-Grows zero name s = Grows-refl s
  visit-Grows (suc n) name s = elim (Bool-cases (has name s.visited)) [
    | inl old ↦ subst (λ t. Grows s t) (sym (visit_seen (suc n) name s old)) (Grows-refl s)
    | inr new ↦
        subst (λ t. Grows s t) (sym (visit_new n name s new))
          (finish-Grows name s _ new
            (visit_all-Grows (visit n reg) (visit-Grows n) (dependencies reg name) (mark name s)))
  ]

  pub visit_marks :
      (n : ℕ) (name : String) (s : Visit) → has name (visit (suc n) reg name s).visited ≡ true
  unfolding finish mark
  visit_marks n name s = elim (Bool-cases (has name s.visited)) [
    | inl old ↦ ap (λ (t : Visit). has name t.visited) (visit_seen (suc n) name s old) ∙ old
    | inr new ↦
        let g =
          visit_all-Grows (visit n reg) (visit-Grows n) (dependencies reg name) (mark name s) in
        ap (λ (t : Visit). has name t.visited) (visit_new n name s new)
        ∙ g.visited_stays name (ground (arith, has-add name name s.visited, ==-refl name))
  ]
