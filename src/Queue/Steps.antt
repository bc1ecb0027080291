-- ===== src/Queue/Steps.antt =====
-- packages/ketjs/src/server/queue.ts: the statements that write to `ket_job`, as a step relation.
-- Any interleaving of the statements of any number of connections is a sequence of steps.
use ketjs.Common.{
  ℕ, zero, suc, ◌+◌, ◌*◌, String, Bool, true, false, ◌&&◌, ◌≡◌, refl, inl, inr, Option, none, some,
  List, [], ◌∷◌, ltb, leb, if◌then◌else◌, Bool-cases, Option-cases,
}
use ketjs.Queue.Row.{Job, Table, is_runnable, insert_row, update_row, find_row, WorkerGuard}
use ketjs.Queue.Operations.{
  or_else, keyed_outcome, plain_outcome, EnqueueOptions, new_row, holds_key, resolve, enqueue,
  is_truthy, retry_executing, discard_executing, heartbeat, complete, cancel, retry_now, release,
  prune,
}
use ketjs.Queue.Claim.{
  ClaimOptions, claimed, claim_each, claim_sqlite, pick, rescue_each, rescue, Rescued, lease_token,
}

pub data Step (t u : Table) : Type 0 where
  inserted :
      (at : ℕ) (id job args : String) (o : EnqueueOptions)
      → u ≡ (insert_row (new_row at id job args o) t).0
      → Step t u
  picked_up :
      (at : ℕ) (o : ClaimOptions) (id : String)
      → u ≡ (update_row id (λ r. is_runnable r.state && leb r.scheduled_at at) (claimed at o) t).0
      → Step t u
  beaten : (now : ℕ) (id w : String) (lease : ℕ) → u ≡ (heartbeat now id w lease t).0 → Step t u
  finished : (now : ℕ) (id : String) (g : WorkerGuard) → u ≡ (complete now id g t).0 → Step t u
  retried :
      (now : ℕ) (id message : String) (run_at : ℕ) (g : WorkerGuard) (known : Option Job)
      → u ≡ (retry_executing now id message run_at g known t).0
      → Step t u
  given_up :
      (now : ℕ) (id message : String) (g : WorkerGuard) (known : Option Job)
      → u ≡ (discard_executing now id message g known t).0
      → Step t u
  stopped : (now : ℕ) (id : String) → u ≡ (cancel now id t).0 → Step t u
  reopened : (now : ℕ) (id : String) → u ≡ (retry_now now id t).0 → Step t u
  freed : (now : ℕ) (id : String) → u ≡ (release now id t).0 → Step t u
  pruned : (completed discarded : ℕ) → u ≡ (prune completed discarded t).0 → Step t u

pub data Reach (t : Table) : Table → Type 0 where
  here : Reach t t
  next : {u v : Table} → Reach t u → Step u v → Reach t v

pub Reach-trans : {t u v : Table} → Reach t u → Reach u v → Reach t v
Reach-trans h here = h
Reach-trans h (next k s) = next (Reach-trans h k) s

outcome_table :
    {t : Table} (r : Table × Bool × Option String) (id : String)
    → Reach t r.0
    → Reach t (keyed_outcome id r).0
outcome_table (u, true, none) id h = h
outcome_table (u, false, none) id h = h
outcome_table (u, b, some found) id h = h

plain_table :
    {t : Table} (r : Table × Bool) (id : String) → Reach t r.0 → Reach t (plain_outcome id r).0
plain_table (u, true) id h = h
plain_table (u, false) id h = h

-- The loops of the operations are sequences of steps.
module _ (other : ℕ → Table → Table) (reached : (i : ℕ) (t : Table) → Reach t (other i t)) where
  resolve-Reach :
      (at : ℕ) (id job args : String) (o : EnqueueOptions) (n : ℕ) (t : Table) (b : Bool)
      → Reach t (resolve other (new_row at id job args o) n t b).0
  unfolding resolve
  resolve-Reach at id job args o n t true = here
  resolve-Reach at id job args o zero t false = here
  resolve-Reach at id job args o (suc n) t false =
      elim (Option-cases (find_row (holds_key (new_row at id job args o)) (other (n * 2 + 1) t))) [
        | inr (r, e) ↦ rw (e, resolve) (reached (n * 2 + 1) t)
        | inl e ↦
            rw (e, resolve)
              (Reach-trans
                (next (Reach-trans (reached (n * 2 + 1) t) (reached (n * 2) (other (n * 2 + 1) t)))
                  (inserted at id job args o refl))
                (resolve-Reach at id job args o n _ _))
      ]

  -- `enqueue` is a sequence of steps, if what the other connections do is one.
  pub enqueue-Reach :
      (at : ℕ) (id job args : String) (o : EnqueueOptions) (t : Table)
      → Reach t (enqueue other at id job args o t).0
  unfolding enqueue
  enqueue-Reach at id job args o t =
      let j = new_row at id job args o in
      let first : Reach t (insert_row j t).0 = next here (inserted at id job args o refl) in
      let looped : Reach t (resolve other j 3 (insert_row j t).0 (insert_row j t).1).0 =
        Reach-trans first (resolve-Reach at id job args o 3 _ (insert_row j t).1) in
      elim (Bool-cases (ltb (or_else o.max_attempts 20) 1)) [
        | inl e ↦ rw e here
        | inr e ↦ rw e (elim (Bool-cases (is_truthy o.unique_key)) [
          | inl k ↦
              rw k
                (outcome_table (resolve other j 3 (insert_row j t).0 (insert_row j t).1) id looped)
          | inr k ↦ rw k (plain_table (insert_row j t) id first)
        ])
      ]

-- Each loop round of the SQLite claim is a step.
claim_each-Reach :
    (at : ℕ) (o : ClaimOptions) (ps : List Job) (t : Table) → Reach t (claim_each at o ps t).0
unfolding claim_each
claim_each-Reach at o [] t = here
claim_each-Reach at o (p ∷ ps) t =
    elim (Bool-cases
      (update_row p.id (λ r. is_runnable r.state && leb r.scheduled_at at) (claimed at o) t).1) [
        | inl e ↦
            rw e (Reach-trans (next here (picked_up at o p.id refl)) (claim_each-Reach at o ps _))
        | inr e ↦
            rw e (Reach-trans (next here (picked_up at o p.id refl)) (claim_each-Reach at o ps _))
      ]

pub claim_sqlite-Reach :
    (text_le : String → String → Bool) (at : ℕ) (queue : String) (o : ClaimOptions) (t : Table)
    → Reach t (claim_sqlite text_le at queue o t).0
unfolding claim_sqlite
claim_sqlite-Reach text_le at queue o t = claim_each-Reach at o (pick text_le at queue o.limit t) t

either : {t u v : Table} (b : Bool) → Reach t u → Reach t v → Reach t (if b then u else v)
either true h k = h
either false h k = k

rescue_each-Reach :
    (at : ℕ) (js : List Job) (t : Table) (n : Rescued) → Reach t (rescue_each at js t n).0
unfolding rescue_each
rescue_each-Reach at [] t n = here
rescue_each-Reach at (j ∷ js) t n =
    Reach-trans
      (either (leb j.max_attempts j.attempt)
        (next here
          (given_up at j.id "worker lease expired" (lease_token j.worker_id) (some j) refl))
        (next here
          (retried at j.id "worker lease expired" at (lease_token j.worker_id) (some j) refl)))
      (rescue_each-Reach at js _ _)

pub rescue-Reach :
    (text_le : String → String → Bool) (at limit : ℕ) (t : Table)
    → Reach t (rescue text_le at limit t).0
unfolding rescue
rescue-Reach text_le at limit t = rescue_each-Reach at _ t _
