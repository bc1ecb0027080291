-- ===== src/Queue/Guarantees.antt =====
-- packages/ketjs/src/server/queue.ts: what a worker may rely on after a claim. A job belongs to one
-- worker, no other can end it, and nothing more urgent is left behind.
use ketjs.Common.{
  ℕ, zero, suc, ◌<◌, ◌==◌, take, ◌≤◌, String, Bool, true, false, ◌&&◌, ◌≡◌, refl, sym, ap, subst,
  inl, inr, ◌⊎◌, some, List, [], ◌∷◌, map, str_eq, eq_iff, eq_refl, if◌then◌else◌, Bool-cases,
  filter, length, All, In, here, there, All-map, arith, sort_by, IsOrder, sort_by-IsSorted,
  take_before, In-sort_by, In-filter, length-take,
}
use ketjs.Queue.Row.{Job, Table, is_executing, update_row, worker, worker_guard, sql_eq}
use ketjs.Queue.Operations.{complete, heartbeat, retry, discard, retry_executing, discard_executing}
use ketjs.Queue.Claim.{
  ClaimOptions, claimed, has_id, pick, claim_sqlite, is_due, clamp, claim_order,
}
use ketjs.Queue.Unique.{NoClash}
use ketjs.Queue.Steps.{claim_sqlite-Reach}
use ketjs.Queue.Consistent.{Reach-NoClash}
use ketjs.Queue.Exclusive.{claim_sqlite_lem, pick_sound, claimed_id}

-- The order of the pick, if ids are ordered.
claim_order-IsOrder :
    (text_le : String → String → Bool) → IsOrder text_le → IsOrder (claim_order text_le)
unfolding claim_order
claim_order-IsOrder text_le o = record {
  total = λ a b h. ground (arith, o.total a.id b.id);
  trans = λ a b c h k. ground (arith, o.trans a.id b.id c.id);
}

-- By priority, then by due time, then by id.
abbrev pub ComesFirst : (String → String → Bool) → Job → Job → Type 0
ComesFirst text_le x y =
    (x.priority < y.priority)
    ⊎ ((x.priority ≡ y.priority)
        × ((x.scheduled_at < y.scheduled_at)
            ⊎ ((x.scheduled_at ≡ y.scheduled_at) × (text_le x.id y.id ≡ true))))

claim_order-ComesFirst :
    (text_le : String → String → Bool) (x y : Job)
    → claim_order text_le x y ≡ true
    → ComesFirst text_le x y
unfolding claim_order
claim_order-ComesFirst text_le x y h = elim (Bool-cases (x.priority == y.priority)) [
  | inr c ↦ inl (ground (arith, h, c))
  | inl c ↦ inr (
    ground (arith, c),
    elim (Bool-cases (x.scheduled_at == y.scheduled_at)) [
      | inr d ↦ inl (ground (arith, h, c, d))
      | inl d ↦ inr (ground (arith, d), ground (arith, h, c, d))
    ],
  )
]

take_full {ℓ} :
    {A : Type ℓ} (n : ℕ) (xs : List A) {y : A}
    → In y xs
    → In y (take n xs) ⊎ (length (take n xs) ≡ n)
take_full zero xs m = inr refl
take_full (suc n) [] m = elim m [ ]
take_full (suc n) (x ∷ xs) (here e) = inl (here e)
take_full (suc n) (x ∷ xs) (there m) = elim (take_full n xs m) [
  | inl k ↦ inl (there k)
  | inr k ↦ inr (ap suc k)
]

module _ (text_le : String → String → Bool) (at : ℕ) (queue : String) where
  -- If the comparison of ids is a total, transitive order, a due job that a claim leaves behind
  -- comes after every job that the claim picks: it has a larger priority number, or the same and a
  -- later due time, or the same of both and no smaller an id. And none is left behind unless the
  -- claim picks as many as it may.
  pub pick_first :
      (o : IsOrder text_le) (limit : ℕ) (t : Table) {x y : Job}
      → In x (pick text_le at queue limit t)
      → In y t
      → is_due at queue y ≡ true
      → In y (pick text_le at queue limit t)
        ⊎ (ComesFirst text_le x y × (length (pick text_le at queue limit t) ≡ clamp 100 limit))
  unfolding pick
  pick_first o limit t {x} {y} m n d =
      let due = sort_by (claim_order text_le) (filter (is_due at queue) t) in
      let left = In-sort_by (claim_order text_le) (In-filter (is_due at queue) n d) in
      elim (take_full (clamp 100 limit) due left) [
        | inl picked ↦ inl picked
        | inr full ↦
            elim (take_before (claim_order text_le) (clamp 100 limit) due
              (sort_by-IsSorted (claim_order text_le) (claim_order-IsOrder text_le o)
                (filter (is_due at queue) t))
              m left) [
                | inl picked ↦ inl picked
                | inr e ↦ inr (claim_order-ComesFirst text_le x y e, full)
              ]
      ]

  pub pick_bound : (limit : ℕ) (t : Table) → length (pick text_le at queue limit t) ≤ 100
  unfolding pick
  pick_bound limit t = ground (
    arith,
    length-take (clamp 100 limit) (sort_by (claim_order text_le) (filter (is_due at queue) t)),
  )

running_not_due :
    (at' : ℕ) (queue : String) (at : ℕ) (o : ClaimOptions) (r : Job)
    → is_due at' queue (claimed at o r) ≡ true
    → ⊥
unfolding is_due claimed
running_not_due at' queue at o r h = ground arith

-- An UPDATE whose condition no row meets changes nothing.
update_row_refused :
    (id : String) (p : Job → Bool) (f : Job → Job) (t : Table)
    → All (λ r. (str_eq r.id id && p r) ≡ false) t
    → update_row id p f t ≡ (t, false)
unfolding update_row
update_row_refused id p f [] a = refl
update_row_refused id p f (r ∷ t) a = rw (a.0, update_row_refused id p f t a.1)

abbrev HeldByOther : String → String → Table → Type 0
HeldByOther id w t = All (λ r. str_eq r.id id ≡ true → sql_eq r.worker_id (some w) ≡ false) t

refused_row :
    (id w : String) (r : Job)
    → (str_eq r.id id ≡ true → sql_eq r.worker_id (some w) ≡ false)
    → (str_eq r.id id && (is_executing r.state && sql_eq r.worker_id (some w))) ≡ false
refused_row id w r h = elim (Bool-cases (str_eq r.id id)) [
  | inl e ↦ rw (e, h e) (and_false (is_executing r.state))
  | inr e ↦ rw e
]
  where
    and_false : (b : Bool) → (b && false) ≡ false
    and_false true = refl
    and_false false = refl

-- A worker that does not hold a job cannot renew its lease, complete, retry or discard it: each
-- of the calls answers false and leaves the table as it was.
pub fenced :
    (now : ℕ) (id w message : String) (lease run_at : ℕ) (t : Table)
    → HeldByOther id w t
    → (heartbeat now id w lease t ≡ (t, false))
      × (complete now id (worker w) t ≡ (t, false))
      × (retry now id message run_at (worker w) t ≡ (t, false))
      × (discard now id message (worker w) t ≡ (t, false))
unfolding heartbeat complete retry discard retry_executing discard_executing worker_guard
fenced now id w message lease run_at t h =
    let none_held = All-map _ _ (refused_row id w) t h in
    (
      update_row_refused id _ _ t none_held,
      update_row_refused id _ _ t none_held,
      update_row_refused id _ _ t none_held,
      update_row_refused id _ _ t none_held,
    )

In-has_id : {x : Job} (ps : List Job) → In x ps → has_id ps x.id ≡ true
In-has_id [] m = elim m [ ]
In-has_id {x} (p ∷ ps) (here e) = rw e (rw (eq_refl p.id))
In-has_id {x} (p ∷ ps) (there m) = ground (arith, In-has_id ps m)

module _ (at : ℕ) (o : ClaimOptions) where
  marked_held :
      (ps : List Job) (w id : String) (rows : Table)
      → has_id ps id ≡ true
      → str_eq o.worker_id w ≡ false
      → HeldByOther id w (map (λ r. if has_id ps r.id then claimed at o r else r) rows)
  unfolding claimed
  marked_held ps w id [] m d = tt
  marked_held ps w id (r ∷ rows) m d = (
    elim (Bool-cases (has_id ps r.id)) [
      | inl e ↦ rw e (λ _. d)
      | inr e ↦ rw e (λ k. absurd (picked_or_not ((eq_iff r.id id).0 k) e))
    ],
    marked_held ps w id rows m d,
  )
    where
      picked_or_not : r.id ≡ id → has_id ps r.id ≡ false → ⊥
      picked_or_not k e = let f : has_id ps id ≡ false = rw (← k) e in cc

  has_id-claimed : (ps : List Job) (id : String) → has_id (map (claimed at o) ps) id ≡ has_id ps id
  unfolding claimed
  has_id-claimed [] id = refl
  has_id-claimed (p ∷ ps) id = rw (has_id-claimed ps id)

  -- A row that is due after the marking was not marked.
  due_unmarked :
      (ps : List Job) (at' : ℕ) (queue : String) (t : Table) {x : Job}
      → In x (map (λ r. if has_id ps r.id then claimed at o r else r) t)
      → is_due at' queue x ≡ true
      → has_id ps x.id ≡ false
  due_unmarked ps at' queue [] m d = elim m [ ]
  due_unmarked ps at' queue (r ∷ t) {x} (here e) d =
      unmarked_head (subst (λ z. is_due at' queue z ≡ true) e d) (sym e)
    where
      unmarked_head :
          is_due at' queue (if has_id ps r.id then claimed at o r else r) ≡ true
          → (if has_id ps r.id then claimed at o r else r) ≡ x
          → has_id ps x.id ≡ false
      unmarked_head k f = elim (Bool-cases (has_id ps r.id)) [
        | inl c ↦ absurd (running_not_due at' queue at o r (rw c at k))
        | inr c ↦ let g : r ≡ x = rw c at f in rw (← g) c
      ]
  due_unmarked ps at' queue (r ∷ t) (there m) d = due_unmarked ps at' queue t m d

unseen :
    (at : ℕ) (o : ClaimOptions) (at' : ℕ) (o' : ClaimOptions) (ps first : List Job)
    → first ≡ map (claimed at o) ps
    → (qs : List Job) → All (λ q. has_id ps q.id ≡ false) qs
    → All (λ j. has_id first j.id ≡ false) (map (claimed at' o') qs)
unseen at o at' o' ps first e [] a = tt
unseen at o at' o' ps first e (q ∷ qs) a = (
  rw (e, claimed_id at' o' q, has_id-claimed at o ps q.id) a.0,
  unseen at o at' o' ps first e qs a.1,
)

module _ (text_le : String → String → Bool) (at : ℕ) (queue : String) (o : ClaimOptions) (t : Table)
    (h : NoClash t) where
  -- Directly after a worker has claimed a job on a table in which no two rows clash, heartbeat,
  -- complete, retry and discard by any other worker answer false for it and leave the table.
  pub claimed_fenced :
      (x : Job) (now : ℕ) (w message : String) (lease run_at : ℕ)
      → In x (pick text_le at queue o.limit t)
      → str_eq o.worker_id w ≡ false
      → let u = (claim_sqlite text_le at queue o t).0 in
        (heartbeat now x.id w lease u ≡ (u, false))
        × (complete now x.id (worker w) u ≡ (u, false))
        × (retry now x.id message run_at (worker w) u ≡ (u, false))
        × (discard now x.id message (worker w) u ≡ (u, false))
  claimed_fenced x now w message lease run_at m d = fenced now x.id w message lease run_at _ (
      subst (λ r. HeldByOther x.id w r.0) (sym (claim_sqlite_lem text_le at queue o t h))
        (marked_held at o _ w x.id t (In-has_id _ m) d))

  -- On a table in which no two rows clash, two claims, one directly after the other, of any queues
  -- and workers and at any times, never return the same job.
  pub claims_disjoint :
      (at' : ℕ) (queue' : String) (o' : ClaimOptions)
      → let (u, first) = claim_sqlite text_le at queue o t in
        All (λ j. has_id first j.id ≡ false) (claim_sqlite text_le at' queue' o' u).1
  claims_disjoint at' queue' o' =
      let u = (claim_sqlite text_le at queue o t).0 in
      let safe : NoClash u = Reach-NoClash (claim_sqlite-Reach text_le at queue o t) h in
      let exact = claim_sqlite_lem text_le at queue o t h in
      let second = claim_sqlite_lem text_le at' queue' o' u safe in
      subst (λ s. All (λ j. has_id (claim_sqlite text_le at queue o t).1 j.id ≡ false) s.1)
        (sym second)
        (unseen at o at' o' _ _ (ap (λ s. s.1) exact) _ (
          All-map _ _
            (λ x k. due_unmarked at o _ at' queue' t (subst (λ s. In x s.0) exact k.0) k.1)
            (pick text_le at' queue' o'.limit u) (pick_sound text_le at' queue' o' u)))
