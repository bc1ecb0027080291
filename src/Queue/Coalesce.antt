-- ===== src/Queue/Coalesce.antt =====
-- packages/ketjs/src/server/queue.ts: `enqueue` with a unique key, against other connections.
use ketjs.Common.{
  ℕ, zero, suc, ◌+◌, ◌*◌, ◌≤◌, String, Bool, true, false, ◌≡◌, ◌≢◌, refl, subst, sym, inl, inr,
  Option, none, some, [], ◌∷◌, ltb, str_eq, Bool-cases, Option-cases, any, In, here,
  In-append_right, arith,
}
use ketjs.Queue.Row.{Job, Table, insert_row, find_row, clash, same_slot}
use ketjs.Queue.Operations.{
  EnqueueOptions, new_row, holds_key, resolve, Enqueued, queued, enqueue, is_truthy, or_else,
  keyed_outcome, plain_outcome,
}
use ketjs.Queue.Unique.{find_row-some}

-- What an answer of `enqueue` promises of the table that it leaves: a new job is stored, and an
-- existing one is an active job with the same operation, key and company.
abbrev pub Promises : Job → Table × Enqueued → Type 0
Promises j (t, queued id false) = In j t × (j.id ≡ id)
Promises j (t, queued id true) = (r : Job) × In r t × (holds_key j r ≡ true) × (r.id ≡ id)
Promises j (t, _) = Unit

-- The same of the loop.
abbrev Found : Job → Table × Bool × Option String → Type 0
Found j (t, true, none) = In j t
Found j (t, false, none) = Unit
Found j (t, b, some id) = (r : Job) × In r t × (holds_key j r ≡ true) × (r.id ≡ id)

insert_row-In : (j : Job) (t : Table) → (insert_row j t).1 ≡ true → In j (insert_row j t).0
unfolding insert_row
insert_row-In j t h = elim (Bool-cases (any (λ r. clash r j) t)) [
  | inl e ↦ absurd (cc (rw e at h))
  | inr e ↦ rw e (In-append_right t (here refl))
]

module _ (other : ℕ → Table → Table) (j : Job) where
  resolve-Found :
      (n : ℕ) (t : Table) (b : Bool) → (b ≡ true → In j t) → Found j (resolve other j n t b)
  unfolding resolve
  resolve-Found n t true h = h refl
  resolve-Found zero t false h = tt
  resolve-Found (suc n) t false h =
      elim (Option-cases (find_row (holds_key j) (other (n * 2 + 1) t))) [
        | inr (r, e) ↦
            rw (e, resolve)
              (let (m, k) = find_row-some (holds_key j) (other (n * 2 + 1) t) e in (r, m, k, refl))
        | inl e ↦
            rw (e, resolve)
              (resolve-Found n _ _ (insert_row-In j (other (n * 2) (other (n * 2 + 1) t))))
      ]

Found-keyed :
    (j : Job) (r : Table × Bool × Option String) → Found j r → Promises j (keyed_outcome j.id r)
Found-keyed j (t, true, none) h = (h, refl)
Found-keyed j (t, false, none) h = tt
Found-keyed j (t, true, some id) h = h
Found-keyed j (t, false, some id) h = h

plain_promise :
    (j : Job) (r : Table × Bool) → (r.1 ≡ true → In j r.0) → Promises j (plain_outcome j.id r)
plain_promise j (t, true) h = (h refl, refl)
plain_promise j (t, false) h = tt

new_row_id :
    (at : ℕ) (id job args : String) (o : EnqueueOptions) → (new_row at id job args o).id ≡ id
unfolding new_row
new_row_id at id job args o = refl

-- Whatever the other connections do between the statements of `enqueue`, its answer is true of
-- the table that it leaves.
pub enqueue-Promises :
    (other : ℕ → Table → Table) (at : ℕ) (id job args : String) (o : EnqueueOptions) (t : Table)
    → Promises (new_row at id job args o) (enqueue other at id job args o t)
unfolding enqueue
enqueue-Promises other at id job args o t =
    let j = new_row at id job args o in
    let same : j.id ≡ id = new_row_id at id job args o in
    elim (Bool-cases (ltb (or_else o.max_attempts 20) 1)) [
      | inl e ↦ rw e tt
      | inr e ↦ rw e (elim (Bool-cases (is_truthy o.unique_key)) [
        | inl k ↦ rw k (
            subst
              (λ i.
                Promises j
                  (keyed_outcome i (resolve other j 3 (insert_row j t).0 (insert_row j t).1)))
              same
              (Found-keyed j _ (
                resolve-Found other j 3 (insert_row j t).0 (insert_row j t).1 (insert_row-In j t))))
        | inr k ↦ rw k (
            subst (λ i. Promises j (plain_outcome i (insert_row j t))) same
              (plain_promise j (insert_row j t) (insert_row-In j t)))
      ])
    ]

same_slot-holds_key : (r j : Job) → same_slot r j ≡ true → holds_key j r ≡ true
unfolding same_slot holds_key
same_slot-holds_key r j h = ground arith

clashing_found :
    (j : Job) (t : Table)
    → any (λ r. clash r j) t ≡ true
    → any (λ r. str_eq r.id j.id) t ≡ false
    → find_row (holds_key j) t ≢ none
unfolding find_row clash
clashing_found j [] h k = cc
clashing_found j (r ∷ t) h k = ground (arith, clashing_found j t, same_slot-holds_key r j)

keyed_total :
    (id : String) (j : Job) (t : Table)
    → any (λ r. str_eq r.id j.id) t ≡ false
    → (found : String) × (existing : Bool) × ((keyed_outcome id
          (resolve (λ _ u. u) j 3 (insert_row j t).0 (insert_row j t).1)).1
        ≡ queued found existing)
unfolding insert_row resolve find_row
keyed_total id j t f = elim (Bool-cases (any (λ r. clash r j) t)) [
  | inl e ↦ elim (Option-cases (find_row (holds_key j) t)) [
    | inl k ↦ absurd (clashing_found j t e f k)
    | inr (r, k) ↦ (r.id, true, rw (e, k))
  ]
  | inr e ↦ (id, false, rw e)
]

not_below : (n : ℕ) → 1 ≤ n → ltb n 1 ≡ false
not_below n h = ground arith

-- With no other connection at work, a fresh id, a unique key and a budget of at least one attempt,
-- `enqueue` always answers with a job: the unique index cannot refuse an insert without the loop finding the row that holds the key.
pub enqueue_total :
    (at : ℕ) (id job args : String) (o : EnqueueOptions) (t : Table)
    → is_truthy o.unique_key ≡ true
    → 1 ≤ or_else o.max_attempts 20
    → any (λ r. str_eq r.id id) t ≡ false
    → (found : String) × (existing : Bool) × ((enqueue (λ _ u. u) at id job args o t).1
        ≡ queued found existing)
unfolding enqueue
enqueue_total at id job args o t k m f =
    rw (not_below (or_else o.max_attempts 20) m, k)
      (keyed_total id (new_row at id job args o) t
        (subst (λ i. any (λ r. str_eq r.id i) t ≡ false) (sym (new_row_id at id job args o)) f))
