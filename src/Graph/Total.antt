-- ===== src/Graph/Total.antt =====
-- packages/ketjs/src/kernel/graph.ts: the sort succeeds, and its fuel is enough.
use ketjs.Common.{
  ℕ, zero, suc, ◌+◌, ◌≤◌, ◌<◌, String, Bool, ◌≡◌, refl, sym, ap, subst, inl, inr, Option, none,
  some, List, [], ◌∷◌, ◌++◌, map, str_eq, eq_iff, eq_refl, Bool-cases, lookup, insert, includes,
  lookup-insert, length, sort_by, All, All-sort_by, All-map, All-of_In, includes-In, In, here,
  there, arith,
}
use ketjs.Graph.{
  Module, Mark, visiting, visited, Walk, Walked, ok, ◌>>=◌, find_module, visit_all, pop, leave,
  enter, visit, topo_sort, check_names, check_depends, check_all,
}
use ketjs.Graph.Order.{Ordered, names, find_module_name, In-names, mark_cases, topo_sort-Ordered}

abbrev unmarked_one : Option Mark → ℕ
unmarked_one none = 1
unmarked_one (some k) = 0

-- The modules that have no mark yet.
abbrev unmarked : List Module → List (String × Mark) → ℕ
unmarked [] s = 0
unmarked (m ∷ ms) s = unmarked_one (lookup m.name s) + unmarked ms s

-- What a visit does to the marks: none is taken away, and no call is left open.
abbrev KeepsMarks : List (String × Mark) → List (String × Mark) → Type 0
KeepsMarks s t = (k : String) → lookup k t ≡ none → lookup k s ≡ none

abbrev ClosesCalls : List (String × Mark) → List (String × Mark) → Type 0
ClosesCalls s t = (k : String) → lookup k t ≡ some visiting → lookup k s ≡ some visiting

unmarked_one-le : (o p : Option Mark) → (o ≡ none → p ≡ none) → unmarked_one o ≤ unmarked_one p
unmarked_one-le none none h = omega arith
unmarked_one-le none (some k) h = absurd (cc (h refl))
unmarked_one-le (some k) none h = omega arith
unmarked_one-le (some k) (some l) h = omega arith

unmarked-le :
    (ms : List Module) (s t : List (String × Mark)) → KeepsMarks s t → unmarked ms t ≤ unmarked ms s
unmarked-le [] s t h = omega arith
unmarked-le (m ∷ ms) s t h =
    omega
      (arith, unmarked_one-le (lookup m.name t) (lookup m.name s) (h m.name), unmarked-le ms s t h)

insert-KeepsMarks :
    (name : String) (k : Mark) (s : List (String × Mark)) → KeepsMarks s (insert name k s)
insert-KeepsMarks name k s l h = ground (arith, h, lookup-insert name l k s)

lookup_inserted :
    (name : String) (k : Mark) (s : List (String × Mark)) → lookup name (insert name k s) ≡ some k
lookup_inserted name k s = rw (lookup-insert, eq_refl) refl

-- A name that is marked counts no longer.
unmarked-insert :
    (name : String) (k : Mark) (ms : List Module) (s : List (String × Mark))
    → lookup name s ≡ none
    → In name (names ms)
    → unmarked ms (insert name k s) < unmarked ms s
unmarked-insert name k [] s e m = elim m [ ]
unmarked-insert name k (x ∷ ms) s e (here i) = omega (
  arith,
  ap unmarked_one (subst (λ l. lookup l (insert name k s) ≡ some k) i (lookup_inserted name k s)),
  ap unmarked_one (subst (λ l. lookup l s ≡ none) i e),
  unmarked-le ms s (insert name k s) (insert-KeepsMarks name k s),
)
unmarked-insert name k (x ∷ ms) s e (there i) = omega (
  arith,
  unmarked_one-le (lookup x.name (insert name k s)) (lookup x.name s)
      (insert-KeepsMarks name k s x.name),
  unmarked-insert name k ms s e i,
)

-- No call is open whose module ranks no higher than the name.
abbrev IsFree : (String → ℕ) → String → List (String × Mark) → Type 0
IsFree rank name s = (k : String) → lookup k s ≡ some visiting → rank name < rank k

-- A visit that returns.
abbrev Returns : Walked → Walk → Type 0
Returns r v = (w : Walk) × (r ≡ ok w) × KeepsMarks v.state w.state × ClosesCalls v.state w.state

-- No name twice.
abbrev pub AreApart : List String → Type 0
AreApart [] = Unit
AreApart (x ∷ xs) = (¬ In x xs) × AreApart xs

module _ (unit_le locale_le : String → String → Bool) (modules : List Module)
    (rank : String → ℕ) where
  abbrev Succeeds : ℕ → (String → Walk → Walked) → Type 0
  Succeeds n f =
      (name : String) (v : Walk)
      → In name (names modules)
      → unmarked modules v.state < n
      → IsFree rank name v.state
      → Returns (f name v) v

  visit_all-Returns :
      (n : ℕ) (f : String → Walk → Walked)
      → Succeeds n f
      → (ds : List String) (v : Walk) → All (λ d. In d (names modules) × IsFree rank d v.state) ds
      → unmarked modules v.state < n
      → Returns (visit_all f ds v) v
  unfolding visit_all
  visit_all-Returns n f spec [] v h less = (v, refl, (λ k e. e), λ k e. e)
  visit_all-Returns n f spec (d ∷ ds) v ((m, free), h) less =
      let (u, e, marks, closed) = spec d v m less free in
      let (w, e₂, marks₂, closed₂) =
        visit_all-Returns n f spec ds u (still u ds h closed)
          (omega (arith, less, unmarked-le modules v.state u.state marks)) in
      (w, rw e e₂, (λ k g. marks k (marks₂ k g)), λ k g. closed k (closed₂ k g))
    where
      still :
          (u : Walk) (ds : List String)
          → All (λ d. In d (names modules) × IsFree rank d v.state) ds
          → ClosesCalls v.state u.state
          → All (λ d. In d (names modules) × IsFree rank d u.state) ds
      still u [] h c = tt
      still u (x ∷ xs) ((i, g), h) c = ((i, λ k e. g k (c k e)), still u xs h c)

  -- Every dependency is installed, and ranks below the module.
  abbrev pub IsRanked : Type 0
  IsRanked =
      (m : Module)
      → In m modules
      → All (λ d. In d (names modules) × (rank d < rank m.name)) m.depends

  visit_fresh :
      (n : ℕ) (m : Module) (v : Walk)
      → Succeeds n (visit unit_le locale_le modules n)
      → In m.name (names modules)
      → All (λ d. In d (names modules) × (rank d < rank m.name)) m.depends
      → lookup m.name v.state ≡ none
      → unmarked modules v.state < suc n
      → IsFree rank m.name v.state
      → Returns
          (visit_all
              (visit unit_le locale_le modules n)
              (sort_by unit_le m.depends)
              (enter m.name v)
            >>= leave m.name m)
          v
  visit_fresh n m v spec i below e less free =
      let (u, done, marks, closed) =
        visit_all-Returns n (visit unit_le locale_le modules n) spec (sort_by unit_le m.depends)
          (enter m.name v)
          (All-sort_by unit_le _ m.depends
            (All-map _ _ (λ d (j, low). (j, entered d low)) m.depends below))
          (omega (arith, less, unmarked-insert m.name visiting modules v.state e i)) in
      (
        record {
          state = insert m.name visited u.state;
          out = u.out ++ m ∷ [];
          stack = pop u.stack;
        },
        rw done refl,
        (λ k g.
            insert-KeepsMarks m.name visiting v.state k
              (marks k (insert-KeepsMarks m.name visited u.state k g))),
        λ k g. left u k (closed k) g,
      )
    where
      entered : (d : String) → rank d < rank m.name → IsFree rank d (insert m.name visiting v.state)
      entered d low k g = elim (Bool-cases (str_eq m.name k)) [
        | inl c ↦ rw ((eq_iff m.name k).0 c) at low
        | inr c ↦ omega (arith, low, free k (rw (lookup-insert, c) at g))
      ]

      left :
          (u : Walk) (k : String)
          → (lookup k u.state ≡ some visiting
              → lookup k (insert m.name visiting v.state) ≡ some visiting)
          → lookup k (insert m.name visited u.state) ≡ some visiting
          → lookup k v.state ≡ some visiting
      left u k c g = elim (Bool-cases (str_eq m.name k)) [
        | inl d ↦ absurd (cc (rw (lookup-insert, d) at g))
        | inr d ↦ rw (lookup-insert, d) at (c (rw (lookup-insert, d) at g))
      ]

  installed :
      (name : String) (ms : List Module)
      → In name (names ms)
      → (m : Module) × (find_module name ms ≡ some m)
  unfolding find_module
  installed name [] i = elim i [ ]
  installed name (x ∷ ms) (here e) = (x, rw (e, eq_refl) refl)
  installed name (x ∷ ms) (there i) = elim (Bool-cases (str_eq x.name name)) [
    | inl c ↦ (x, rw c refl)
    | inr c ↦ let (m, f) = installed name ms i in (m, rw c f)
  ]

  visit-Succeeds : IsRanked → (n : ℕ) → Succeeds n (visit unit_le locale_le modules n)
  unfolding visit
  visit-Succeeds ranked zero name v i less free = absurd (omega (arith, less))
  visit-Succeeds ranked (suc n) name v i less free = elim (mark_cases (lookup name v.state)) [
    | inr (inl k) ↦ absurd (omega (arith, free name k))
    | inr (inr k) ↦ (v, rw (visit, k) refl, (λ l e. e), λ l e. e)
    | inl k ↦
        let (m, f) = installed name modules i in
        let (same, inside) = find_module_name name modules f in
        let (w, e, marks, closed) =
          visit_fresh n m v (visit-Succeeds ranked n) (rw same i) (ranked m inside)
            (subst (λ l. lookup l v.state ≡ none) (sym same) k) less
            (subst (λ l. IsFree rank l v.state) (sym same) free) in
        (
          w,
          rw (visit, k, f)
              (subst
                (λ l.
                  (visit_all (visit unit_le locale_le modules n) (sort_by unit_le m.depends)
                      (enter l v)
                    >>= leave l m)
                  ≡ ok w)
                same e),
          marks,
          closed,
        )
  ]

  unmarked_all : (ms : List Module) → unmarked ms [] ≡ length ms
  unmarked_all [] = refl
  unmarked_all (m ∷ ms) = omega (arith, unmarked_all ms)

  check_depends-none :
      (m : Module) (ds : List String)
      → All (λ d. In d (names modules) × (rank d < rank m.name)) ds
      → check_depends modules m ds ≡ none
  unfolding check_depends
  check_depends-none m [] h = refl
  check_depends-none m (d ∷ ds) ((i, low), h) =
      let (x, f) = installed d modules i in rw (check_depends, f) (check_depends-none m ds h)

  check_all-none :
      IsRanked
      → (ms : List Module) → ((m : Module) → In m ms → In m modules)
      → check_all modules ms ≡ none
  unfolding check_all
  check_all-none ranked [] h = refl
  check_all-none ranked (m ∷ ms) h =
      rw (check_all, check_depends-none m m.depends (ranked m (h m (here refl))))
        (check_all-none ranked ms (λ x i. h x (there i)))

  check_names-none :
      (seen : List String) (ms : List Module)
      → ((k : String) → In k seen → ¬ In k (names ms))
      → AreApart (names ms)
      → check_names seen ms ≡ none
  unfolding check_names
  check_names-none seen [] fresh h = refl
  check_names-none seen (m ∷ ms) fresh h = elim (Bool-cases (includes seen m.name)) [
    | inl c ↦ absurd (fresh m.name (includes-In seen m.name c) (here refl))
    | inr c ↦ rw (check_names, c) (check_names-none (m.name ∷ seen) ms (later fresh h.0) h.1)
  ]
    where
      later :
          ((k : String) → In k seen → ¬ In k (names (m ∷ ms)))
          → ¬ In m.name (names ms)
          → (k : String) → In k (m.name ∷ seen)
          → ¬ In k (names ms)
      later f g k (here e) n = g (subst (λ l. In l (names ms)) e n)
      later f g k (there i) n = f k i (there n)

  -- If no two modules share a name, every dependency is installed and the dependencies have no
  -- cycle (every module ranks above its dependencies), the sort returns all the modules, each once
  -- and after its dependencies.
  pub topo_sort_total :
      AreApart (names modules)
      → IsRanked
      → (w : Walk) × (topo_sort unit_le locale_le modules ≡ ok w)
        × Ordered [] w.out
        × ((m : Module) → In m modules → In m.name (names w.out))
  unfolding topo_sort
  topo_sort_total apart ranked =
      let (w, e, marks, closed) =
        visit_all-Returns (suc (length modules))
          (visit unit_le locale_le modules (suc (length modules)))
          (visit-Succeeds ranked (suc (length modules)))
          (map (λ (m : Module). m.name)
            (sort_by (λ (a b : Module). locale_le a.name b.name) modules))
          (record { state = []; out = []; stack = [] })
          (every_name (sort_by (λ (a b : Module). locale_le a.name b.name) modules) (
            All-sort_by (λ (a b : Module). locale_le a.name b.name) (λ m. In m modules) modules
              (All-of_In (λ m. In m modules) modules (λ m i. i))))
          (omega (arith, unmarked_all modules)) in
      let done : topo_sort unit_le locale_le modules ≡ ok w =
        rw
          (
            topo_sort,
            check_names-none [] modules (λ k i. elim i [ ]) apart,
            check_all-none ranked modules (λ m i. i),
          )
          e in
      let (ordered, complete) = topo_sort-Ordered unit_le locale_le modules w done in
      (w, done, ordered, complete)
    where
      every_name :
          (ms : List Module)
          → All (λ m. In m modules) ms
          → All (λ d. In d (names modules) × IsFree rank d []) (map (λ (m : Module). m.name) ms)
      every_name [] h = tt
      every_name (m ∷ ms) (i, h) = ((In-names i, λ k e. cc), every_name ms h)
