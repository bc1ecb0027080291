-- ===== src/Graph/Tests.antt =====
-- packages/ketjs/src/kernel/graph.ts: two modules in either order, and a cycle.
use ketjs.Common.{
  ℕ, str_eq, if◌then◌else◌, here, there, arith, String, Bool, true, ◌≡◌, refl, [], ◌∷◌, In,
}
use ketjs.Graph.{
  Module, Walk, ok, cycle, topo_sort, visit, visit_all, find_module, check_names, check_depends,
  check_all, visited,
}
use ketjs.Graph.Total.{AreApart, IsRanked, topo_sort_total}
use ketjs.Graph.Order.{Ordered, names, topo_sort-Ordered}

abbrev any_order : String → String → Bool
any_order a b = true

abbrev sales : Module
sales = record { name = "sales"; depends = "base" ∷ [] }

abbrev base : Module
base = record { name = "base"; depends = [] }

abbrev sorted_walk : Walk
sorted_walk = record {
  state = ("sales", visited) ∷ ("base", visited) ∷ [];
  out = base ∷ sales ∷ [];
  stack = [];
}

sorted : topo_sort any_order any_order (sales ∷ base ∷ []) ≡ ok sorted_walk
unfolding topo_sort visit visit_all find_module check_names check_depends check_all
sorted = refl

cyclic :
    topo_sort any_order any_order (sales ∷ record { name = "base"; depends = "sales" ∷ [] } ∷ [])
    ≡ cycle ("sales" ∷ "base" ∷ "sales" ∷ [])
unfolding topo_sort visit visit_all find_module check_names check_depends check_all
cyclic = refl

topo_sort-Ordered_example :
    Ordered [] (base ∷ sales ∷ [])
    × ((m : Module) → In m (sales ∷ base ∷ []) → In m.name (names (base ∷ sales ∷ [])))
topo_sort-Ordered_example =
    topo_sort-Ordered any_order any_order (sales ∷ base ∷ []) sorted_walk sorted

-- Sales ranks above base.
abbrev level : String → ℕ
level name = if str_eq name "sales" then 1 else 0

deployment-IsRanked : IsRanked any_order any_order (sales ∷ base ∷ []) level
deployment-IsRanked m (here e) = rw e ((there (here refl), omega arith), tt)
deployment-IsRanked m (there (here e)) = rw e tt
deployment-IsRanked m (there (there i)) = elim i [ ]

no_clash : AreApart (names (sales ∷ base ∷ []))
no_clash = (other, ((λ i. elim i [ ]), tt))
  where
    other : ¬ In {A = String} "sales" ("base" ∷ [])
    other (here e) = cc
    other (there i) = elim i [ ]

topo_sort_total_example :
    (w : Walk) × (topo_sort any_order any_order (sales ∷ base ∷ []) ≡ ok w)
    × Ordered [] w.out
    × ((m : Module) → In m (sales ∷ base ∷ []) → In m.name (names w.out))
topo_sort_total_example =
    topo_sort_total any_order any_order (sales ∷ base ∷ []) level no_clash deployment-IsRanked
