-- ===== src/Queue/Rescued.antt =====
-- packages/ketjs/src/server/queue.ts: `rescue` leaves no job with a worker that is gone.
use ketjs.Common.{
  ◌∙◌, All-In, All-take, All-sort_by, All-filter-In, sym, ℕ, zero, suc, ◌≤◌, String, Bool, true,
  false, ◌&&◌, ◌≡◌, refl, ap, inl, inr, ◌⊎◌, Option, none, some, List, [], ◌∷◌, str_eq, eq_refl,
  leb, ltb, if◌then◌else◌, Bool-cases, filter, take, length, place, sort_by, In, here, there,
  In-filter, In-sort_by, arith,
}
use ketjs.Queue.Row.{
  JobState, retryable, discarded, Job, Table, is_executing, update_row, worker_guard,
}
use ketjs.Queue.Operations.{retry_executing, discard_executing}
use ketjs.Queue.Unique.{NoClash, id_unique}
use ketjs.Queue.Claim.{clamp, is_lost, lease_token, Rescued, rescue_each, rescue, rescue_order}

module _ {ℓ} {A : Type ℓ} (le : A → A → Bool) where
  length-place : (x : A) (ys : List A) → length (place le x ys) ≡ suc (length ys)
  length-place x [] = refl
  length-place x (y ∷ ys) = elim (Bool-cases (le x y)) [
    | inl c ↦ rw c refl
    | inr c ↦ rw c (ap suc (length-place x ys))
  ]

  length-sort_by : (xs : List A) → length (sort_by le xs) ≡ length xs
  length-sort_by [] = refl
  length-sort_by (x ∷ xs) = rw (length-place x (sort_by le xs), length-sort_by xs) refl

take_all {ℓ} : {A : Type ℓ} (n : ℕ) (xs : List A) → length xs ≤ n → take n xs ≡ xs
take_all zero [] h = refl
take_all zero (x ∷ xs) h = absurd (omega (arith, h))
take_all (suc n) [] h = refl
take_all (suc n) (x ∷ xs) h = ap (λ ys. x ∷ ys) (take_all n xs (omega (arith, h)))

-- What a row that an UPDATE writes and one that it passes over have in common.
update_row-In :
    (P : Job → Type 0) (id : String) (p : Job → Bool) (f : Job → Job) (t : Table)
    → ((r : Job) → In r t → (str_eq r.id id && p r) ≡ false → P r)
    → ((r : Job) → P (f r))
    → (r : Job) → In r (update_row id p f t).0
    → P r
unfolding update_row
update_row-In P id p f [] kept new r m = elim m [ ]
update_row-In P id p f (q ∷ t) kept new r m = elim (Bool-cases (str_eq q.id id && p q)) [
  | inl c ↦ elim (split (f q) (rw c at m)) [
    | inl e ↦ rw e (new q)
    | inr n ↦ update_row-In P id p f t (λ s i. kept s (there i)) new r n
  ]
  | inr c ↦ elim (split q (rw c at m)) [
    | inl e ↦ rw e (kept q (here refl) c)
    | inr n ↦ update_row-In P id p f t (λ s i. kept s (there i)) new r n
  ]
]
  where
    split : (x : Job) → In r (x ∷ (update_row id p f t).0) → (r ≡ x) ⊎ In r (update_row id p f t).0
    split x (here e) = inl e
    split x (there n) = inr n

-- Two tables with their rows in pairs, in order.
abbrev pub Pairs : (Job → Job → Type 0) → Table → Table → Type 0
Pairs R [] [] = Unit
Pairs R (j ∷ js) (r ∷ rs) = R j r × Pairs R js rs
Pairs R _ _ = ⊥

module _ (at : ℕ) where
  -- The lost rows are among those that are left to rescue.
  abbrev AreLeft : List Job → Table → Type 0
  AreLeft js t = (r : Job) → In r t → is_lost at r ≡ true → In r js

  own_guard : (j : Job) → worker_guard (lease_token j.worker_id) j ≡ true
  unfolding worker_guard
  own_guard j = guard_of j.worker_id refl
    where
      guard_of : (o : Option String) → j.worker_id ≡ o → worker_guard (lease_token o) j ≡ true
      guard_of none e = rw e refl
      guard_of (some w) e = rw e (eq_refl w)

  not_passed :
      (j : Job)
      → is_lost at j ≡ true
      → ¬ (
          (str_eq j.id j.id && (is_executing j.state && worker_guard (lease_token j.worker_id) j))
          ≡ false)
  unfolding is_lost
  not_passed j lost passed = ground (arith, lost, passed, own_guard j, eq_refl j.id)

  no_lease : (r : Job) → r.lease_until ≡ none → is_lost at r ≡ false
  unfolding is_lost
  no_lease r e = ground (arith, no_expiry r.lease_until e)
    where
      no_expiry : (o : Option ℕ) → o ≡ none → elim o [ none ↦ false | some u ↦ ltb u at ] ≡ false
      no_expiry none e = refl
      no_expiry (some u) e = cc

  rescued-AreLeft :
      (j : Job) (js : List Job) (f : Job → Job) (t : Table)
      → ((r : Job) → (f r).lease_until ≡ none)
      → AreLeft (j ∷ js) t
      → AreLeft js
          (update_row j.id
            (λ r. is_executing r.state && worker_guard (lease_token j.worker_id) r)
            f
            t).0
  rescued-AreLeft j js f t ends left =
      update_row-In (λ r. is_lost at r ≡ true → In r js) j.id _ f t
        (λ r m passed lost. rest r passed lost (left r m lost))
        (λ r lost. cc (no_lease (f r) (ends r), lost))
    where
      rest :
          (r : Job)
          → (str_eq r.id j.id && (is_executing r.state && worker_guard (lease_token j.worker_id) r))
            ≡ false
          → is_lost at r ≡ true
          → In r (j ∷ js)
          → In r js
      rest r passed lost (here e) = absurd (not_passed j (rw e at lost) (rw e at passed))
      rest r passed lost (there n) = n

  rescue_each-AreLeft :
      (js : List Job) (t : Table) (n : Rescued)
      → AreLeft js t
      → AreLeft [] (rescue_each at js t n).0
  unfolding rescue_each retry_executing discard_executing
  rescue_each-AreLeft [] t n left = left
  rescue_each-AreLeft (j ∷ js) t n left = rescue_each-AreLeft js _ _ (
      either (leb j.max_attempts j.attempt) (rescued-AreLeft j js _ t (λ r. refl) left)
        (rescued-AreLeft j js _ t (λ r. refl) left))
    where
      either :
          {u v : Table} (b : Bool) → AreLeft js u → AreLeft js v → AreLeft js (if b then u else v)
      either true l r = l
      either false l r = r

  -- What a rescue makes of a job whose worker is lost.
  abbrev pub outcome : Job → JobState
  outcome j = if leb j.max_attempts j.attempt then discarded else retryable

  outcome_idle : (j : Job) → is_executing (outcome j) ≡ false
  outcome_idle j = elim (Bool-cases (leb j.max_attempts j.attempt)) [
    | inl c ↦ rw c refl
    | inr c ↦ rw c refl
  ]

  -- A job and what it has become: a lost one is discarded or retried under its id, others stay.
  abbrev pub Becomes : Job → Job → Type 0
  Becomes j r =
      (is_lost at j ≡ true → (r.id ≡ j.id) × (r.state ≡ outcome j) × (r.lease_until ≡ none))
      × (is_lost at j ≡ false → r ≡ j)

  abbrev IsHalfway : Job → Job → Type 0
  IsHalfway j r =
      (r ≡ j)
      ⊎ ((is_lost at j ≡ true) × (r.id ≡ j.id) × (r.state ≡ outcome j) × (r.lease_until ≡ none))

  -- An UPDATE of a lost job, on tables that have the original and the present rows in one order.
  module _ (t : Table) (apart : NoClash t) (q : Job) (m : In q t) (lost : is_lost at q ≡ true)
      (f : Job → Job)
      (writes : (r : Job)
        → ((f r).id ≡ r.id) × ((f r).state ≡ outcome q) × ((f r).lease_until ≡ none)) where
    written :
        (j r : Job)
        → In j t
        → IsHalfway j r
        → (str_eq r.id q.id && (is_executing r.state && worker_guard (lease_token q.worker_id) r))
          ≡ true
        → IsHalfway j (f r)
    written j r n (inl e) c =
        let same : j ≡ q = id_unique q.id t apart m n (eq_refl q.id) (rw e at (same_id c)) in
        inr (
          rw same lost,
          (writes r).0 ∙ ap (λ (x : Job). x.id) e,
          (writes r).1 ∙ ap outcome (sym same),
          (writes r).2,
        )
      where
        same_id :
            (str_eq r.id q.id && (is_executing r.state && worker_guard (lease_token q.worker_id) r))
              ≡ true
            → str_eq r.id q.id ≡ true
        same_id h = ground (arith, h)
    written j r n (inr (l, i, s, e)) c = absurd (cc (outcome_idle j, s, running c))
      where
        running :
            (str_eq r.id q.id && (is_executing r.state && worker_guard (lease_token q.worker_id) r))
              ≡ true
            → is_executing r.state ≡ true
        running h = ground (arith, h)

    update_row-Pairs :
        (js rs : Table)
        → ((j : Job) → In j js → In j t)
        → Pairs IsHalfway js rs
        → Pairs IsHalfway js
            (update_row q.id
              (λ r. is_executing r.state && worker_guard (lease_token q.worker_id) r)
              f
              rs).0
    unfolding update_row
    update_row-Pairs [] [] within h = tt
    update_row-Pairs [] (r ∷ rs) within h = absurd h
    update_row-Pairs (j ∷ js) [] within h = absurd h
    update_row-Pairs (j ∷ js) (r ∷ rs) within (p, h) =
        let later = update_row-Pairs js rs (λ k n. within k (there n)) h in
        elim (Bool-cases (
          str_eq r.id q.id && (is_executing r.state && worker_guard (lease_token q.worker_id) r))) [
            | inl c ↦ rw c (written j r (within j (here refl)) p c, later)
            | inr c ↦ rw c (p, later)
          ]

  rescue_each-Pairs :
      (t : Table)
      → NoClash t
      → (js : List Job) (u : Table) (n : Rescued)
      → ((j : Job) → In j js → In j t × (is_lost at j ≡ true))
      → Pairs IsHalfway t u
      → Pairs IsHalfway t (rescue_each at js u n).0
  unfolding rescue_each retry_executing discard_executing
  rescue_each-Pairs t apart [] u n within h = h
  rescue_each-Pairs t apart (q ∷ js) u n within h =
      let (m, lost) = within q (here refl) in
      elim (Bool-cases (leb q.max_attempts q.attempt)) [
        | inl c ↦
            rescue_each-Pairs t apart js _ _ (λ j i. within j (there i))
              (rw c (
                update_row-Pairs t apart q m lost _ (λ r. (refl, rw c refl, refl)) t u (λ j i. i)
                  h))
        | inr c ↦
            rescue_each-Pairs t apart js _ _ (λ j i. within j (there i))
              (rw c (
                update_row-Pairs t apart q m lost _ (λ r. (refl, rw c refl, refl)) t u (λ j i. i)
                  h))
      ]

  settled : (ts us : Table) → AreLeft [] us → Pairs IsHalfway ts us → Pairs Becomes ts us
  settled [] [] left h = tt
  settled [] (r ∷ us) left h = absurd h
  settled (j ∷ ts) [] left h = absurd h
  settled (j ∷ ts) (r ∷ us) left (p, h) = (became p, settled ts us (λ x m. left x (there m)) h)
    where
      became : IsHalfway j r → Becomes j r
      became (inl e) = ((λ lost. elim (left r (here refl) (rw e lost)) [ ]), λ kept. e)
      became (inr (l, i, s, e)) = ((λ lost. (i, s, e)), λ kept. cc)

  Pairs-same : (t : Table) → Pairs IsHalfway t t
  Pairs-same [] = tt
  Pairs-same (j ∷ t) = (inl refl, Pairs-same t)

  -- On a table in which no two rows clash, a rescue that may take as many jobs as have lost their
  -- worker discards those of them whose attempts are spent and retries the rest, under their ids and
  -- without a lease, and leaves every other job as it is.
  pub rescue-Pairs :
      (text_le : String → String → Bool) (limit : ℕ) (t : Table)
      → NoClash t
      → length (filter (is_lost at) t) ≤ clamp 1000 limit
      → Pairs Becomes t (rescue text_le at limit t).0
  unfolding rescue
  rescue-Pairs text_le limit t apart few =
      settled t _ (rescue_each-AreLeft picked t counts all_read)
        (rescue_each-Pairs t apart picked t counts of_table (Pairs-same t))
    where
      picked : List Job
      picked = take (clamp 1000 limit) (sort_by (rescue_order text_le) (filter (is_lost at) t))

      counts : Rescued
      counts = record { retried = 0; discarded = 0 }

      all_read : AreLeft picked t
      all_read r m c =
          rw
            (take_all (clamp 1000 limit) (sort_by (rescue_order text_le) (filter (is_lost at) t))
              (rw (length-sort_by (rescue_order text_le) (filter (is_lost at) t)) few))
            (In-sort_by (rescue_order text_le) (In-filter (is_lost at) m c))

      of_table : (j : Job) → In j picked → In j t × (is_lost at j ≡ true)
      of_table j n =
          All-In (λ x. In x t × (is_lost at x ≡ true)) n
            (All-take (rescue_order text_le) (λ x. In x t × (is_lost at x ≡ true))
              (clamp 1000 limit) (sort_by (rescue_order text_le) (filter (is_lost at) t))
              (All-sort_by (rescue_order text_le) (λ x. In x t × (is_lost at x ≡ true))
                (filter (is_lost at) t) (All-filter-In (is_lost at) t t (λ x m. m))))
