-- ===== src/Queue/Lifecycle.antt =====
-- packages/ketjs/src/server/queue.ts: the life of one row. The statements are described by what
-- they may do to a row, independently of how they are written.
use ketjs.Common.{
  ℕ, ◌+◌, ◌≤◌, String, Bool, true, false, ◌&&◌, not, ◌≡◌, refl, inl, inr, ◌⊎◌, none, [], ◌∷◌, ◌++◌,
  str_eq, Bool-cases, Option-cases, filter, All, arith, any,
}
use ketjs.Queue.Row.{
  JobState, available, scheduled, executing, retryable, completed, discarded, cancelled, Job, Table,
  is_terminal, insert_row, update_row, find_row, clash, same_slot,
}
use ketjs.Queue.Operations.{
  retry_executing, discard_executing, heartbeat, complete, cancel, retry_now, release, prune,
  is_retriable, revived, new_row, prunable, EnqueueOptions,
}
use ketjs.Queue.Claim.{claimed}
use ketjs.Queue.Steps.{
  Step, inserted, picked_up, beaten, finished, retried, given_up, stopped, reopened, freed, pruned,
}

-- The lifecycle diagram of a job.
pub data Edge : JobState → JobState → Type 0 where
  run_available : Edge available executing
  run_scheduled : Edge scheduled executing
  run_retryable : Edge retryable executing
  succeed : Edge executing completed
  retry_later : Edge executing retryable
  exhaust : Edge executing discarded
  hand_back : Edge executing available
  cancel_available : Edge available cancelled
  cancel_scheduled : Edge scheduled cancelled
  cancel_retryable : Edge retryable cancelled
  cancel_executing : Edge executing cancelled
  reopen_retryable : Edge retryable available
  reopen_discarded : Edge discarded available

pub ruleset edges = (
  run_available, run_scheduled, run_retryable, succeed, retry_later, exhaust, hand_back,
  cancel_available, cancel_scheduled, cancel_retryable, cancel_executing, reopen_retryable,
  reopen_discarded,
)

-- What one statement may do to a row.
pub record Advances (r s : Job) : Type 0 where
  pub id : s.id ≡ r.id
  pub job : s.job ≡ r.job
  pub queue : s.queue ≡ r.queue
  pub args : s.args ≡ r.args
  pub priority : s.priority ≡ r.priority
  pub scope : s.scope ≡ r.scope
  pub unique_key : s.unique_key ≡ r.unique_key
  pub inserted_at : s.inserted_at ≡ r.inserted_at
  pub life : (s.state ≡ r.state) ⊎ Edge r.state s.state
  pub attempt : (s.attempt ≡ r.attempt) ⊎ ((s.attempt ≡ r.attempt + 1) × (s.state ≡ executing))
  pub budget : r.max_attempts ≤ s.max_attempts

Advances-refl : (r : Job) → Advances r r
Advances-refl r = record {
  id = refl;
  job = refl;
  queue = refl;
  args = refl;
  priority = refl;
  scope = refl;
  unique_key = refl;
  inserted_at = refl;
  life = inl refl;
  attempt = inl refl;
  budget = omega arith;
}

and_right : (a b : Bool) → (a && b) ≡ true → b ≡ true
and_right true b k = k
and_right false b k = cc

prunable_terminal : (c d : ℕ) (r : Job) → prunable c d r ≡ true → is_terminal r.state ≡ true
unfolding prunable
prunable_terminal c d r h = ground arith

-- A row that has never run.
pub record IsFresh (r : Job) : Type 0 where
  pub waiting : (r.state ≡ available) ⊎ (r.state ≡ scheduled)
  pub unclaimed : (r.attempt ≡ 0) × (r.worker_id ≡ none) × (r.lease_until ≡ none)

-- What one statement may do to the table: rows advance in place, rows in a terminal state may be
-- deleted, and fresh rows may be added at the end.
pub data Evolves : Table → Table → Type 0 where
  added : {u : Table} → All IsFresh u → Evolves [] u
  advanced : {r s : Job} {t u : Table} → Advances r s → Evolves t u → Evolves (r ∷ t) (s ∷ u)
  deleted : {r : Job} {t u : Table} → is_terminal r.state ≡ true → Evolves t u → Evolves (r ∷ t) u

Evolves-refl : (t : Table) → Evolves t t
Evolves-refl [] = added tt
Evolves-refl (r ∷ t) = advanced (Advances-refl r) (Evolves-refl t)

append-Evolves : (t : Table) (j : Job) → IsFresh j → Evolves t (t ++ j ∷ [])
append-Evolves [] j f = added (f, tt)
append-Evolves (r ∷ t) j f = advanced (Advances-refl r) (append-Evolves t j f)

new_row-IsFresh :
    (at : ℕ) (id job args : String) (o : EnqueueOptions) → IsFresh (new_row at id job args o)
unfolding new_row
new_row-IsFresh at id job args o = ground arith

insert_row-Evolves : (t : Table) (j : Job) → IsFresh j → Evolves t (insert_row j t).0
unfolding insert_row
insert_row-Evolves t j f = elim (Bool-cases (any (λ r. clash r j) t)) [
  | inl e ↦ rw e (Evolves-refl t)
  | inr e ↦ rw e (append-Evolves t j f)
]

update_row-Evolves :
    (id : String) (p : Job → Bool) (f : Job → Job)
    → ((r : Job) → p r ≡ true → Advances r (f r))
    → (t : Table) → Evolves t (update_row id p f t).0
unfolding update_row
update_row-Evolves id p f sound [] = added tt
update_row-Evolves id p f sound (r ∷ t) = elim (Bool-cases (str_eq r.id id && p r)) [
  | inl e ↦
      rw e (
        advanced (sound r (and_right (str_eq r.id id) (p r) e)) (update_row-Evolves id p f sound t))
  | inr e ↦ rw e (advanced (Advances-refl r) (update_row-Evolves id p f sound t))
]

prune-Evolves : (c d : ℕ) (t : Table) → Evolves t (filter (λ r. not (prunable c d r)) t)
prune-Evolves c d [] = added tt
prune-Evolves c d (r ∷ t) = elim (Bool-cases (prunable c d r)) [
  | inl e ↦ rw e (deleted (prunable_terminal c d r e) (prune-Evolves c d t))
  | inr e ↦ rw e (advanced (Advances-refl r) (prune-Evolves c d t))
]

revived-Advances : (now : ℕ) (r : Job) → is_retriable r.state ≡ true → Advances r (revived now r)
unfolding revived
revived-Advances now r h = grind (arith, edges)

retry_now-Evolves : (now : ℕ) (id : String) (t : Table) → Evolves t (retry_now now id t).0
unfolding retry_now
retry_now-Evolves now id t =
    elim (Option-cases (find_row (λ r. str_eq r.id id && is_retriable r.state) t)) [
      | inl e ↦ rw (e, retry_now) (Evolves-refl t)
      | inr (r, e) ↦
          elim (Bool-cases (any (λ q. not (str_eq q.id id) && same_slot q (revived now r)) t)) [
            | inl v ↦ rw (e, v, retry_now) (Evolves-refl t)
            | inr v ↦
                rw (e, v, retry_now)
                  (update_row-Evolves id _ (revived now) (revived-Advances now) t)
          ]
    ]

-- A row moves only along the edges of the diagram, its identity is never rewritten, its attempt
-- counter stays, or grows by one on the way into the executing state, and only terminal rows are
-- deleted.
pub Step-Evolves : {t u : Table} → Step t u → Evolves t u
unfolding claimed retry_executing discard_executing heartbeat complete cancel release prune
Step-Evolves {t} (inserted at id job args o e) =
    rw e (insert_row-Evolves t _ (new_row-IsFresh at id job args o))
Step-Evolves {t} (picked_up at o id e) =
    rw e (update_row-Evolves id _ _ (λ r p. grind (arith, edges)) t)
Step-Evolves {t} (beaten now id w lease e) =
    rw e (update_row-Evolves id _ _ (λ r p. grind (arith, edges)) t)
Step-Evolves {t} (finished now id g e) =
    rw e (update_row-Evolves id _ _ (λ r p. grind (arith, edges)) t)
Step-Evolves {t} (retried now id message run_at g known e) =
    rw e (update_row-Evolves id _ _ (λ r p. grind (arith, edges)) t)
Step-Evolves {t} (given_up now id message g known e) =
    rw e (update_row-Evolves id _ _ (λ r p. grind (arith, edges)) t)
Step-Evolves {t} (stopped now id e) =
    rw e (update_row-Evolves id _ _ (λ r p. grind (arith, edges)) t)
Step-Evolves {t} (reopened now id e) = rw e (retry_now-Evolves now id t)
Step-Evolves {t} (freed now id e) = rw e (update_row-Evolves id _ _ (λ r p. grind (arith, edges)) t)
Step-Evolves {t} (pruned c d e) = rw e (prune-Evolves c d t)
