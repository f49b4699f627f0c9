-- ===== src/Services/Registry/Order.antt =====
-- `_compute_load_order` of services/registry.py: the depth-first order of the dependencies. The
-- recursion of `visit` runs on fuel; one more than the number of services is enough.
use aura_aioscpu.Prelude.{
  string_eq, nat_eq, length, has, add, lookup, keys, ℕ, zero, suc, String, true, false, none, some,
  List, [], ◌∷◌, ◌++◌,
}
use aura_aioscpu.Services.Registry.Descriptors.{ServiceDescriptor, ServiceRegistry}

-- The two variables that `visit` changes.
pub record Visit : Type 0 where
  pub visited : List String
  pub order : List String

unfoldable pub mark : String → Visit → Visit
mark name s = record s { visited = add name s.visited }

unfoldable pub finish : String → Visit → Visit
finish name s = record s { order = s.order ++ name ∷ [] }

-- `for dep in …: visit(dep)`
unfoldable pub visit_all : (String → Visit → Visit) → List String → Visit → Visit
visit_all f [] s = s
visit_all f (d ∷ ds) s = visit_all f ds (f d s)

module _ {I F : Type 0} where
  -- What `visit` goes through after it has marked the name; nothing for one that is not registered.
  unfoldable pub dependencies : List (String × ServiceDescriptor I F) → String → List String
  dependencies reg name = elim (lookup name reg) [ none ↦ [] | some desc ↦ desc.depends_on ]

  unfoldable pub visit : ℕ → List (String × ServiceDescriptor I F) → String → Visit → Visit
  visit zero reg name s = s
  visit (suc n) reg name s = elim (has name s.visited) [
    | true ↦ s
    | false ↦ finish name (visit_all (visit n reg) (dependencies reg name) (mark name s))
  ]

  unfoldable pub order_of : List (String × ServiceDescriptor I F) → List String
  order_of reg =
      (visit_all (visit (suc (length reg)) reg) (keys reg)
        (record { visited = []; order = [] })).order

  unfoldable pub compute_load_order : ServiceRegistry I F → ServiceRegistry I F
  compute_load_order r = record r { load_order = order_of r.registry }
