-- ===== src/Graph/Order.antt =====
-- packages/ketjs/src/kernel/graph.ts: the order of a successful sort.
use ketjs.Common.{
  ℕ, zero, suc, String, Bool, ◌≡◌, refl, sym, ap, subst, inl, inr, ◌⊎◌, Option, none, some, List,
  [], ◌∷◌, ◌++◌, map, str_eq, eq_iff, eq_refl, Bool-cases, Option-cases, lookup, insert,
  lookup-insert, length, sort_by, All, All-In, All-of_In, In, here, there, In-append_left,
  In-append_right, In-append, In-sort_by, arith,
}
use mathlib.Core.List.{append-nil, append_assoc}
use ketjs.Graph.{
  Module, Mark, visiting, visited, Walk, Walked, pop, ok, cycle, name_clash, missing_dependency,
  out_of_fuel, ◌>>=◌, find_module, visit_all, leave, enter, visit, topo_sort, check_names,
  check_all,
}

abbrev pub names : List Module → List String
names = map (λ m. m.name)

-- Every module comes after all of its dependencies, and no name comes twice. `seen` are the names
-- that come before the list.
abbrev pub Ordered : List String → List Module → Type 0
Ordered seen [] = Unit
Ordered seen (m ∷ ms) =
    All (λ d. In d seen) m.depends × (¬ In m.name seen) × Ordered (seen ++ m.name ∷ []) ms

Ordered-snoc :
    (seen : List String) (ms : List Module) (m : Module)
    → Ordered seen ms
    → All (λ d. In d (seen ++ names ms)) m.depends
    → ¬ In m.name (seen ++ names ms)
    → Ordered seen (ms ++ m ∷ [])
Ordered-snoc seen [] m h deps fresh = (rw append-nil at deps, rw append-nil at fresh, tt)
Ordered-snoc seen (x ∷ ms) m h deps fresh = (
  h.0,
  h.1,
  Ordered-snoc (seen ++ x.name ∷ []) ms m h.2
      (subst (λ l. All (λ d. In d l) m.depends) regroup deps)
      (subst (λ l. ¬ In m.name l) regroup fresh),
)
  where
    regroup : seen ++ x.name ∷ names ms ≡ (seen ++ x.name ∷ []) ++ names ms
    regroup = sym (append_assoc seen (x.name ∷ []) (names ms))

-- What holds between two visits: the modules that are out are ordered, and are the visited ones.
record Inv (w : Walk) : Type 0 where
  ordered : Ordered [] w.out
  marked_out : (k : String) → lookup k w.state ≡ some visited → In k (names w.out)
  out_marked : (k : String) → In k (names w.out) → lookup k w.state ≡ some visited

-- What a visit keeps: the modules that are out, and the marks of the calls that are open.
record Grows (v w : Walk) : Type 0 where
  kept : (k : String) → In k (names v.out) → In k (names w.out)
  busy : (k : String) → lookup k v.state ≡ some visiting → lookup k w.state ≡ some visiting

Grows-trans : {u v w : Walk} → Grows u v → Grows v w → Grows u w
Grows-trans g h = record {
  kept = λ k m. h.kept k (g.kept k m);
  busy = λ k e. h.busy k (g.busy k e);
}

Grows-refl : {w : Walk} → Grows w w
Grows-refl = record { kept = λ k m. m; busy = λ k e. e }

-- What a visit of a name achieves.
Visits : (String → Walk → Walked) → Type 0
Visits f =
    (name : String) (v w : Walk)
    → Inv v
    → f name v ≡ ok w
    → Inv w × Grows v w × In name (names w.out)

>>=-eq-ok :
    (m : Walked) (f : Walk → Walked) {w : Walk}
    → (m >>= f) ≡ ok w
    → (v : Walk) × (m ≡ ok v) × (f v ≡ ok w)
>>=-eq-ok (ok v) f e = (v, refl, e)
>>=-eq-ok (cycle c) f e = cc
>>=-eq-ok (name_clash c) f e = cc
>>=-eq-ok (missing_dependency a b) f e = cc
>>=-eq-ok out_of_fuel f e = cc

visit_all-Visits :
    (f : String → Walk → Walked)
    → Visits f
    → (ds : List String) (v w : Walk) → Inv v
    → visit_all f ds v ≡ ok w
    → Inv w × Grows v w × All (λ d. In d (names w.out)) ds
unfolding visit_all Visits
visit_all-Visits f spec [] v w i e =
    let same : v ≡ w = cc in (rw (← same) i, rw (← same) Grows-refl, tt)
visit_all-Visits f spec (d ∷ ds) v w i e =
    let (u, e₁, e₂) = >>=-eq-ok (f d v) (visit_all f ds) e in
    let (j, g, m) = spec d v u i e₁ in
    let (k, h, ms) = visit_all-Visits f spec ds u w j e₂ in (k, Grows-trans g h, (h.kept d m, ms))

names-append : (ms : List Module) (m : Module) → names (ms ++ m ∷ []) ≡ names ms ++ m.name ∷ []
names-append [] m = refl
names-append (x ∷ ms) m = ap (λ l. x.name ∷ l) (names-append ms m)

pub find_module_name :
    (name : String) (ms : List Module) {m : Module}
    → find_module name ms ≡ some m
    → (m.name ≡ name) × In m ms
unfolding find_module
find_module_name name [] e = cc
find_module_name name (x ∷ ms) {m} e = elim (Bool-cases (str_eq x.name name)) [
  | inl k ↦
      let same : m ≡ x = found (rw (k, find_module) at e) in
      (rw same ((eq_iff x.name name).0 k), here same)
  | inr k ↦ let (a, b) = find_module_name name ms (rw (k, find_module) at e) in (a, there b)
]
  where
    found : some x ≡ some m → m ≡ x
    found e = cc

enter-Inv : (name : String) (v : Walk) → lookup name v.state ≡ none → Inv v → Inv (enter name v)
enter-Inv name v e i = record {
  ordered = i.ordered;
  marked_out =
      λ k h. ground (arith, lookup-insert name k visiting v.state, i.marked_out k, eq_iff name k);
  out_marked =
      λ k h. ground (arith, lookup-insert name k visiting v.state, i.out_marked k h, eq_iff name k);
}

-- Leaving a module whose dependencies are out.
leave-Inv :
    (m : Module) (u : Walk) (st : List String)
    → Inv u
    → lookup m.name u.state ≡ some visiting
    → All (λ d. In d (names u.out)) m.depends
    → Inv (record { state = insert m.name visited u.state; out = u.out ++ m ∷ []; stack = st })
leave-Inv m u st i busy deps = record {
  ordered = Ordered-snoc [] u.out m i.ordered deps (λ k. cc (i.out_marked m.name k));
  marked_out = λ k h. subst (In k) (sym (names-append u.out m)) (out_or_new k h);
  out_marked = λ k h. elim (In-append (names u.out) (subst (In k) (names-append u.out m) h)) [
    | inl old ↦ ground (arith, lookup-insert m.name k visited u.state, i.out_marked k old)
    | inr (here new) ↦ rw (new, lookup-insert, eq_refl)
    | inr (there none_left) ↦ elim none_left [ ]
  ];
}
  where
    out_or_new :
        (k : String)
        → lookup k (insert m.name visited u.state) ≡ some visited
        → In k (names u.out ++ m.name ∷ [])
    out_or_new k h = elim (Bool-cases (str_eq m.name k)) [
      | inl e ↦ In-append_right (names u.out) (here (sym ((eq_iff m.name k).0 e)))
      | inr e ↦
          In-append_left _ (i.marked_out k (ground (arith, lookup-insert m.name k visited u.state)))
    ]

enter_busy :
    (name k : String) (s : List (String × Mark))
    → lookup k s ≡ some visiting
    → lookup k (insert name visiting s) ≡ some visiting
enter_busy name k s h = ground (arith, lookup-insert name k visiting s)

-- An open call has another name than the module that leaves.
leave_busy :
    (name k : String) (s t : List (String × Mark))
    → lookup name s ≡ none
    → lookup k s ≡ some visiting
    → lookup k t ≡ some visiting
    → lookup k (insert name visited t) ≡ some visiting
leave_busy name k s t e h g = ground (arith, lookup-insert name k visited t, eq_iff name k)

unchanged :
    (v w : Walk) (name : String)
    → Inv v
    → lookup name v.state ≡ some visited
    → ok v ≡ ok w
    → Inv w × Grows v w × In name (names w.out)
unchanged v w name i k e = let same : w ≡ v = cc in rw same (i, Grows-refl, i.marked_out name k)

pub In-names : {m : Module} {ms : List Module} → In m ms → In m.name (names ms)
In-names (here e) = here (ap (λ x. x.name) e)
In-names (there k) = there (In-names k)

pub mark_cases : (o : Option Mark) → (o ≡ none) ⊎ ((o ≡ some visiting) ⊎ (o ≡ some visited))
mark_cases none = inl refl
mark_cases (some visiting) = inr (inl refl)
mark_cases (some visited) = inr (inr refl)

module _ (unit_le locale_le : String → String → Bool) (modules : List Module) where
  module _ (n : ℕ) (spec : Visits (visit unit_le locale_le modules n)) where
    -- A visit of a name that has no mark: enter, visit the dependencies, leave.
    visit_fresh :
        (m : Module) (v w : Walk)
        → Inv v
        → lookup m.name v.state ≡ none
        → (visit_all
              (visit unit_le locale_le modules n)
              (sort_by unit_le m.depends)
              (enter m.name v)
            >>= leave m.name m)
          ≡ ok w
        → Inv w × Grows v w × In m.name (names w.out)
    visit_fresh m v w i e h =
        let (u, e₁, e₂) = >>=-eq-ok _ (leave m.name m) h in
        let (j, g, ds) = visit_all-Visits _ spec _ _ u (enter-Inv m.name v e i) e₁ in
        let busy = g.busy m.name (rw (lookup-insert, eq_refl)) in
        let deps =
          All-of_In (λ d. In d (names u.out)) m.depends
            (λ d k. All-In _ (In-sort_by unit_le k) ds) in
        let same : w ≡ record {
          state = insert m.name visited u.state;
          out = u.out ++ m ∷ [];
          stack = pop u.stack;
        } =
          cc in
        rw same (
          leave-Inv m u (pop u.stack) j busy deps,
          record {
            kept = λ k l. subst (In k) (sym (names-append u.out m)) (In-append_left _ (g.kept k l));
            busy = λ k b.
                leave_busy m.name k v.state u.state e b (g.busy k (enter_busy m.name k v.state b));
          },
          subst (In m.name) (sym (names-append u.out m))
              (In-append_right (names u.out) (here refl)),
        )

  visit-Visits : (n : ℕ) → Visits (visit unit_le locale_le modules n)
  unfolding visit Visits
  visit-Visits zero name v w i e = cc
  visit-Visits (suc n) name v w i e = elim (mark_cases (lookup name v.state)) [
    | inl k ↦ elim (Option-cases (find_module name modules)) [
      | inl f ↦ absurd (cc (rw (k, f, visit) at e))
      | inr (m, f) ↦
          let (same, _) = find_module_name name modules f in
          subst (λ k. Inv w × Grows v w × In k (names w.out)) same
            (visit_fresh n (visit-Visits n) m v w i
              (subst (λ l. lookup l v.state ≡ none) (sym same) k)
              (subst
                (λ l.
                  (visit_all (visit unit_le locale_le modules n) (sort_by unit_le m.depends)
                      (enter l v)
                    >>= leave l m)
                  ≡ ok w)
                (sym same) (rw (k, f, visit) at e)))
    ]
    | inr (inl k) ↦ absurd (cc (rw (k, visit) at e))
    | inr (inr k) ↦ unchanged v w name i k (rw (k, visit) at e)
  ]

  empty_Inv : Inv (record { state = []; out = []; stack = [] })
  empty_Inv = record { ordered = tt; marked_out = λ k h. cc; out_marked = λ k m. elim m [ ] }

  walk_Ordered :
      (w : Walk)
      → visit_all
          (visit unit_le locale_le modules (suc (length modules)))
          (map
            (λ (m : Module). m.name)
            (sort_by (λ (a b : Module). locale_le a.name b.name) modules))
          (record { state = []; out = []; stack = [] })
        ≡ ok w
      → Ordered [] w.out × ((m : Module) → In m modules → In m.name (names w.out))
  walk_Ordered w e =
      let (i, _, all) =
        visit_all-Visits _ (visit-Visits (suc (length modules))) _ _ w empty_Inv e in
      (
        i.ordered,
        λ m k. All-In _ (In-names (In-sort_by (λ (a b : Module). locale_le a.name b.name) k)) all,
      )

  -- When the sort succeeds, every module comes after all its dependencies, no module comes twice,
  -- and every module of the deployment is there.
  pub topo_sort-Ordered :
      (w : Walk)
      → topo_sort unit_le locale_le modules ≡ ok w
      → Ordered [] w.out × ((m : Module) → In m modules → In m.name (names w.out))
  unfolding topo_sort
  topo_sort-Ordered w e = elim (Option-cases (check_names [] modules)) [
    | inr (x, k) ↦ absurd (cc (rw (k, topo_sort) at e))
    | inl k ↦ elim (Option-cases (check_all modules modules)) [
      | inr ((x, y), l) ↦ absurd (cc (rw (k, l, topo_sort) at e))
      | inl l ↦ walk_Ordered w (rw (k, l, topo_sort) at e)
    ]
  ]
