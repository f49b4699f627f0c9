-- ===== src/Services/Registry/DependencyOrder.antt =====
-- Where the dependencies have no cycle, the load order of services/registry.py puts every service
-- behind all that it depends on.
use mathlib.Core.Path.{subst}
use aura_aioscpu.Prelude.{
  Bool-cases, string_eq, nat_eq, ◌==◌, ==_iff, ==-refl, length, All, All-map, has, has-add,
  has-append, keys, ℕ, zero, suc, ◌≤◌, ◌<◌, String, ◌≡◌, sym, ◌⊎◌, inl, inr, true, List, [], ◌∷◌,
  ◌++◌, arith,
}
use aura_aioscpu.Services.Registry.Descriptors.{ServiceDescriptor}
use aura_aioscpu.Services.Registry.Order.{
  Visit, mark, finish, visit_all, dependencies, visit, order_of,
}
use aura_aioscpu.Services.Registry.Search.{visit_all-Grows, visit_seen, visit_new, visit-Grows}
use aura_aioscpu.Services.Registry.Fuel.{pending, pending-Grows, pending-mark, pending_start}

-- Every name in the list stands behind those that it depends on, which `seen` may hold.
unfoldable pub IsOrdered : (String → List String) → List String → List String → Type 0
IsOrdered deps seen [] = Unit
IsOrdered deps seen (x ∷ xs) = All (λ d. has d seen ≡ true) (deps x) × IsOrdered deps (x ∷ seen) xs

-- The dependencies have no cycle: they fall in a rank.
pub record IsAcyclic {I F : Type 0} (reg : List (String × ServiceDescriptor I F)) : Type 0 where
  pub rank : String → ℕ
  pub falls : (name : String) → All (λ d. rank d < rank name) (dependencies reg name)

append-IsOrdered :
    (deps : String → List String) (seen xs : List String) (name : String)
    → All (λ d. (has d seen ≡ true) ⊎ (has d xs ≡ true)) (deps name)
    → IsOrdered deps seen xs
    → IsOrdered deps seen (xs ++ name ∷ [])
unfolding IsOrdered has
append-IsOrdered deps seen [] name h o = (All-map (λ d e. ground (arith, e)) (deps name) h, tt)
append-IsOrdered deps seen (x ∷ xs) name h (o, os) = (
  o,
  append-IsOrdered deps (x ∷ seen) xs name (All-map (λ d e. ground (arith, e)) (deps name) h) os,
)

module _ {I F : Type 0} (reg : List (String × ServiceDescriptor I F))
    (acyclic : IsAcyclic reg) where
  abbrev deps : String → List String
  deps name = dependencies reg name

  abbrev rank : String → ℕ
  rank name = acyclic.rank name

  -- What is marked is in the order, or is being visited and of at least the rank.
  record Waits (r : ℕ) (s : Visit) : Type 0 where
    waits : (v : String) → has v s.visited ≡ true → (has v s.order ≡ true) ⊎ (r ≤ rank v)

  -- What a visit ensures of the name, where the search has enough fuel.
  abbrev Visits : ℕ → Type 0
  Visits n =
      (name : String) (s : Visit)
      → pending reg s < n
      → IsOrdered deps [] s.order
      → Waits (suc (rank name)) s
      → (has name (visit n reg name s).order ≡ true) × IsOrdered deps [] (visit n reg name s).order

  visit-Waits : (n r : ℕ) (name : String) (s : Visit) → Waits r s → Waits r (visit n reg name s)
  visit-Waits n r name s w =
      let g = visit-Grows reg n name s in
      record {
        waits = λ v m. elim (g.finished v m) [
          | inr done ↦ inl done
          | inl before ↦ elim (w.waits v before) [
            | inl earlier ↦ inl (g.order_stays v earlier)
            | inr above ↦ inr above
          ]
        ];
      }

  visit_all-IsOrdered :
      (n r : ℕ)
      → Visits n
      → (ds : List String) (s : Visit) → All (λ d. rank d < r) ds
      → (ds ≡ []) ⊎ (pending reg s < n)
      → IsOrdered deps [] s.order
      → Waits r s
      → All (λ d. has d (visit_all (visit n reg) ds s).order ≡ true) ds
        × IsOrdered deps [] (visit_all (visit n reg) ds s).order
  unfolding visit_all
  visit_all-IsOrdered n r ih [] s low few o w = (tt, o)
  visit_all-IsOrdered n r ih (d ∷ ds) s low (inl e) o w = cc
  visit_all-IsOrdered n r ih (d ∷ ds) s low (inr few) o w =
      let t = visit n reg d s in
      let above : Waits (suc (rank d)) s = record {
        waits = λ v m. elim (w.waits v m) [
          | inl done ↦ inl done
          | inr high ↦ inr (omega (arith, low.0, high))
        ];
      } in
      let first = ih d s few o above in
      let g = visit-Grows reg n d s in
      let rest =
        visit_all-IsOrdered n r ih ds t low.1 (inr (omega (arith, pending-Grows reg s t g, few)))
          first.1 (visit-Waits n r d s w) in
      let later = visit_all-Grows (visit n reg) (visit-Grows reg n) ds t in
      ((later.order_stays d first.0, rest.0), rest.1)

  mark-Waits :
      (name : String) (s : Visit) → Waits (suc (rank name)) s → Waits (rank name) (mark name s)
  unfolding mark
  mark-Waits name s w = record {
    waits = λ v m. elim (Bool-cases (v == name)) [
      | inl same ↦
          inr (subst (λ u. rank name ≤ rank u) (sym ((==_iff v name).0 same)) (omega arith))
      | inr other ↦ elim (w.waits v (ground (arith, has-add v name s.visited))) [
        | inl done ↦ inl done
        | inr high ↦ inr (omega (arith, high))
      ]
    ];
  }

  has-finish : (name : String) (s : Visit) → has name (finish name s).order ≡ true
  unfolding finish has
  has-finish name s = ground (arith, has-append name s.order (name ∷ []), ==-refl name)

  finish-IsOrdered :
      (name : String) (s : Visit)
      → All (λ d. has d s.order ≡ true) (deps name) × IsOrdered deps [] s.order
      → IsOrdered deps [] (finish name s).order
  unfolding finish
  finish-IsOrdered name s h =
      append-IsOrdered deps [] s.order name (All-map (λ d e. inr e) (deps name) h.0) h.1

  mark_order :
      (name : String) (s : Visit)
      → IsOrdered deps [] s.order
      → IsOrdered deps [] (mark name s).order
  unfolding mark
  mark_order name s o = o

  visit-IsOrdered : (n : ℕ) → Visits n
  visit-IsOrdered zero name s few o w = ground (arith, few)
  visit-IsOrdered (suc n) name s few o w = elim (Bool-cases (has name s.visited)) [
    | inl old ↦
        subst (λ (t : Visit). (has name t.order ≡ true) × IsOrdered deps [] t.order)
          (sym (visit_seen reg (suc n) name s old))
          (elim (w.waits name old) [
            | inl done ↦ (done, o)
            | inr above ↦ (ground (arith, above), o)
          ])
    | inr new ↦
        let inner =
          visit_all-IsOrdered n (rank name) (visit-IsOrdered n) (deps name) (mark name s)
            (acyclic.falls name) (pending-mark reg n name s new few) (mark_order name s o)
            (mark-Waits name s w) in
        subst (λ (t : Visit). (has name t.order ≡ true) × IsOrdered deps [] t.order)
          (sym (visit_new reg n name s new)) (has-finish name _, finish-IsOrdered name _ inner)
  ]

  -- Between the visits of the outer loop, what is marked is in the order.
  order-IsOrdered :
      (n : ℕ) (ds : List String) (s : Visit)
      → pending reg s < n
      → IsOrdered deps [] s.order
      → ((v : String) → has v s.visited ≡ true → has v s.order ≡ true)
      → IsOrdered deps [] (visit_all (visit n reg) ds s).order
  unfolding visit_all
  order-IsOrdered n [] s few o done = o
  order-IsOrdered n (d ∷ ds) s few o done =
      let g = visit-Grows reg n d s in
      let open_ones : Waits (suc (rank d)) s = record { waits = λ v m. inl (done v m) } in
      order-IsOrdered n ds (visit n reg d s)
        (omega (arith, pending-Grows reg s (visit n reg d s) g, few))
        (visit-IsOrdered n d s few o open_ones).1
        (λ v m. elim (g.finished v m) [
          | inl before ↦ g.order_stays v (done v before)
          | inr now ↦ now
        ])

  -- Where the dependencies of the services fall in some rank, every service stands in the load order
  -- behind all the services that it depends on.
  pub order_of-IsOrdered : IsOrdered (dependencies reg) [] (order_of reg)
  unfolding order_of IsOrdered has
  order_of-IsOrdered =
      order-IsOrdered (suc (length reg)) (keys reg) (record { visited = []; order = [] })
        (omega (arith, pending_start reg)) tt (λ v m. m)
