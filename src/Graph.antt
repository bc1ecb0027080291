-- ===== src/Graph.antt =====
-- packages/ketjs/src/kernel/graph.ts: `topoSort`, the order in which modules are composed.
pub mod Order
pub mod Total
mod Tests
use ketjs.Common.{
  ℕ, zero, suc, String, Bool, true, false, Option, none, some, List, [], ◌∷◌, ◌++◌, map, str_eq,
  if◌then◌else◌, lookup, insert, includes, length, sort_by,
}

pub record Module : Type 0 where
  pub name : String
  pub depends : List String

-- A name that is in `state` is 1 or 2 there; one that is not counts as 0.
pub data Mark : Type 0 where
  visiting visited : Mark

pub record Walk : Type 0 where
  pub state : List (String × Mark)
  pub out : List Module
  pub stack : List String

pub data Walked : Type 0 where
  ok : Walk → Walked
  cycle : List String → Walked
  name_clash : String → Walked
  missing_dependency : String → String → Walked
  out_of_fuel : Walked

infixl 5 ◌>>=◌
abbrev pub ◌>>=◌ : Walked → (Walk → Walked) → Walked
ok w >>= f = f w
cycle c >>= f = cycle c
name_clash n >>= f = name_clash n
missing_dependency m d >>= f = missing_dependency m d
out_of_fuel >>= f = out_of_fuel

-- `byName.get`, after the check that no two modules share a name.
unfoldable pub find_module : String → List Module → Option Module
find_module name [] = none
find_module name (m ∷ ms) = if str_eq m.name name then some m else find_module name ms

-- `stack.pop()` and `stack.slice(stack.indexOf(name))`.
abbrev pub pop : List String → List String
pop [] = []
pop (x ∷ []) = []
pop (x ∷ y ∷ xs) = x ∷ pop (y ∷ xs)

abbrev pub slice_from : String → List String → List String
slice_from name [] = []
slice_from name (x ∷ xs) = if str_eq x name then x ∷ xs else slice_from name xs

-- The loop `for (const d of ...) visit(d)`.
unfoldable pub visit_all : (String → Walk → Walked) → List String → Walk → Walked
visit_all visit [] w = ok w
visit_all visit (d ∷ ds) w = visit d w >>= visit_all visit ds

-- What `visit` does after the loop over the dependencies.
abbrev pub leave : String → Module → Walk → Walked
leave name m w =
    ok (record { state = insert name visited w.state; out = w.out ++ m ∷ []; stack = pop w.stack })

abbrev pub enter : String → Walk → Walk
enter name w = record w { state = insert name visiting w.state; stack = w.stack ++ name ∷ [] }

-- The first loop: the first name that an earlier module has.
unfoldable pub check_names : List String → List Module → Option String
check_names seen [] = none
check_names seen (m ∷ ms) =
    if includes seen m.name then some m.name else check_names (m.name ∷ seen) ms

-- The second loop: the first dependency that is not installed, with its module.
module _ (modules : List Module) where
  unfoldable pub check_depends : Module → List String → Option String
  check_depends m [] = none
  check_depends m (d ∷ ds) = elim (find_module d modules) [
    | none ↦ some d
    | some _ ↦ check_depends m ds
  ]

  unfoldable pub check_all : List Module → Option (String × String)
  check_all [] = none
  check_all (m ∷ ms) = elim (check_depends m m.depends) [
    | some d ↦ some (m.name, d)
    | none ↦ check_all ms
  ]

-- `unit_le` is the order of `[...].sort()` on strings and `locale_le` that of `localeCompare`.
module _ (unit_le locale_le : String → String → Bool) (modules : List Module) where
  -- The fuel bounds the depth of the calls. A dependency that is not installed has been refused
  -- before, so `missing_dependency` is not reached from here.
  unfoldable pub visit : ℕ → String → Walk → Walked
  visit zero name w = out_of_fuel
  visit (suc n) name w =
      let found : Walked = elim (find_module name modules) [
        | none ↦ missing_dependency name name
        | some m ↦ visit_all (visit n) (sort_by unit_le m.depends) (enter name w) >>= leave name m
      ] in
      elim (lookup name w.state) [
        | some visited ↦ ok w
        | some visiting ↦ cycle (slice_from name w.stack ++ name ∷ [])
        | none ↦ found
      ]

  unfoldable pub topo_sort : Walked
  topo_sort =
      let walk =
        visit_all (visit (suc (length modules)))
          (map (λ m. m.name) (sort_by (λ a b. locale_le a.name b.name) modules))
          (record { state = []; out = []; stack = [] }) in
      elim (check_names [] modules) [
        | some name ↦ name_clash name
        | none ↦ elim (check_all modules modules) [
          | some (m, d) ↦ missing_dependency m d
          | none ↦ walk
        ]
      ]
