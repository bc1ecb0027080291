-- ===== src/Queue/Operations.antt =====
-- packages/ketjs/src/server/queue.ts: `enqueue` and the transitions of one row. An operation
-- returns the table after it; a `boolean` result is `changes === 1`.
use ketjs.Common.{
  ℕ, zero, suc, ◌+◌, ◌*◌, String, Bool, true, false, ◌&&◌, not, Option, none, some, List, [], ltb,
  leb, str_eq, if◌then◌else◌, any, filter, length,
}
use ketjs.Queue.Row.{
  JobState, available, scheduled, retryable, completed, discarded, cancelled, JobError, Scope, Job,
  Table, is_runnable, is_active, is_executing, is_terminal, coalesce, sql_eq, same_slot, insert_row,
  update_row, get, find_row, WorkerGuard, unguarded, worker_guard, push_error,
}

pub record EnqueueOptions : Type 0 where
  pub run_at : Option ℕ
  pub priority : Option ℕ
  pub max_attempts : Option ℕ
  pub queue : Option String
  pub actor : Option String
  pub scope : Option Scope
  pub unique_key : Option String

abbrev pub or_else {ℓ} : {A : Type ℓ} → Option A → A → A
or_else none b = b
or_else (some a) b = a

-- The truth value of `o.uniqueKey`: neither undefined nor the empty string.
abbrev pub is_truthy : Option String → Bool
is_truthy none = false
is_truthy (some s) = not (str_eq s "")

-- `values`, with the columns that the statement leaves to their defaults.
unfoldable pub new_row : ℕ → String → String → String → EnqueueOptions → Job
new_row at id job args o =
    let run_at = or_else o.run_at at in
    record {
      id = id;
      job = job;
      queue = or_else o.queue job;
      args = args;
      state = if ltb at run_at then scheduled else available;
      priority = or_else o.priority 0;
      attempt = 0;
      max_attempts = or_else o.max_attempts 20;
      scheduled_at = run_at;
      attempted_at = none;
      completed_at = none;
      worker_id = none;
      lease_until = none;
      actor = o.actor;
      scope =
          or_else o.scope
            (record { company = none; companies = none; branch = none; branches = none });
      unique_key = o.unique_key;
      errors = [];
      inserted_at = at;
      updated_at = at;
    }

-- The condition of the SELECT that looks for the job that holds a unique key.
unfoldable pub holds_key : Job → Job → Bool
holds_key j r =
    str_eq r.job j.job
    && (sql_eq r.unique_key j.unique_key
        && (str_eq (coalesce r.scope.company) (coalesce j.scope.company) && is_active r.state))

-- The loop after a conflict. `other i` is what the other connections do to the table before the
-- i-th statement from the end; the result is the table, whether the row was inserted, and the
-- id of an existing job.
unfoldable pub resolve : (ℕ → Table → Table) → Job → ℕ → Table → Bool → Table × Bool × Option String
resolve other j n t true = (t, true, none)
resolve other j zero t false = (t, false, none)
resolve other j (suc n) t false =
    let seen = other (n * 2 + 1) t in
    let before = other (n * 2) seen in
    elim (find_row (holds_key j) seen) [
      | some r ↦ (seen, false, some r.id)
      | none ↦ resolve other j n (insert_row j before).0 (insert_row j before).1
    ]

pub data Enqueued : Type 0 where
  queued : String → Bool → Enqueued
  max_attempts_invalid : Enqueued
  key_unresolved : Enqueued
  id_collision : Enqueued

-- What `enqueue` returns after the loop, and without a unique key.
abbrev pub keyed_outcome : String → Table × Bool × Option String → Table × Enqueued
keyed_outcome id (t, inserted, some found) = (t, queued found true)
keyed_outcome id (t, true, none) = (t, queued id false)
keyed_outcome id (t, false, none) = (t, key_unresolved)

abbrev pub plain_outcome : String → Table × Bool → Table × Enqueued
plain_outcome id (t, true) = (t, queued id false)
plain_outcome id (t, false) = (t, id_collision)

-- `enqueue`. `id` is what `nextJobId` returned.
unfoldable pub enqueue :
    (ℕ → Table → Table) → ℕ → String → String → String → EnqueueOptions → Table → Table × Enqueued
enqueue other at id job args o t =
    let j = new_row at id job args o in
    let first = insert_row j t in
    let keyed = keyed_outcome id (resolve other j 3 first.0 first.1) in
    if ltb (or_else o.max_attempts 20) 1
    then (t, max_attempts_invalid)
    else if is_truthy o.unique_key
    then keyed
    else plain_outcome id first

-- `errorHistory`: the errors of `known`, else of the row as it is read now.
unfoldable pub error_history : ℕ → String → String → Option Job → Table → List JobError
unfolding push_error
error_history now id message known t = elim known [
  | some j ↦ push_error (record { at = now; attempt = j.attempt; message = message }) j.errors
  | none ↦ elim (get id t) [
    | some j ↦ push_error (record { at = now; attempt = j.attempt; message = message }) j.errors
    | none ↦ push_error (record { at = now; attempt = 0; message = message }) []
  ]
]

unfoldable pub retry_executing :
    ℕ → String → String → ℕ → WorkerGuard → Option Job → Table → Table × Bool
retry_executing now id message run_at guard known t =
    let history = error_history now id message known t in
    update_row id (λ r. is_executing r.state && worker_guard guard r)
      (λ r. record r {
        state = retryable;
        scheduled_at = run_at;
        errors = history;
        lease_until = none;
        worker_id = none;
        updated_at = now;
      })
      t

unfoldable pub discard_executing :
    ℕ → String → String → WorkerGuard → Option Job → Table → Table × Bool
discard_executing now id message guard known t =
    let history = error_history now id message known t in
    update_row id (λ r. is_executing r.state && worker_guard guard r)
      (λ r. record r {
        state = discarded;
        errors = history;
        completed_at = some now;
        lease_until = none;
        worker_id = none;
        updated_at = now;
      })
      t

unfoldable pub heartbeat : ℕ → String → String → ℕ → Table → Table × Bool
heartbeat now id w lease_ms t =
    update_row id (λ r. is_executing r.state && sql_eq r.worker_id (some w))
      (λ r. record r { lease_until = some (now + lease_ms); updated_at = now }) t

unfoldable pub complete : ℕ → String → WorkerGuard → Table → Table × Bool
complete now id guard t =
    update_row id (λ r. is_executing r.state && worker_guard guard r)
      (λ r. record r {
        state = completed;
        completed_at = some now;
        lease_until = none;
        worker_id = none;
        updated_at = now;
      })
      t

unfoldable pub retry : ℕ → String → String → ℕ → WorkerGuard → Table → Table × Bool
retry now id message run_at guard t = retry_executing now id message run_at guard none t

unfoldable pub discard : ℕ → String → String → WorkerGuard → Table → Table × Bool
discard now id message guard t = discard_executing now id message guard none t

unfoldable pub cancel : ℕ → String → Table → Table × Bool
cancel now id t =
    update_row id (λ r. not (is_terminal r.state))
      (λ r. record r { state = cancelled; completed_at = some now; updated_at = now }) t

-- `state IN ('retryable', 'discarded')`
abbrev pub is_retriable : JobState → Bool
is_retriable retryable = true
is_retriable discarded = true
is_retriable _ = false

-- The row that `retryNow` writes.
unfoldable pub revived : ℕ → Job → Job
revived now r = record r {
  state = available;
  scheduled_at = now;
  completed_at = none;
  worker_id = none;
  lease_until = none;
  max_attempts = if leb r.max_attempts r.attempt then r.attempt + 1 else r.max_attempts;
  updated_at = now;
}

pub data Retried : Type 0 where
  changed unchanged unique_violation : Retried

-- `retryNow`. The UPDATE has no ON CONFLICT clause: it throws where the row that it writes would
-- share an entry of the unique index with another row.
unfoldable pub retry_now : ℕ → String → Table → Table × Retried
retry_now now id t = elim (find_row (λ r. str_eq r.id id && is_retriable r.state) t) [
  | none ↦ (t, unchanged)
  | some r ↦
      if any (λ q. not (str_eq q.id id) && same_slot q (revived now r)) t
      then (t, unique_violation)
      else ((update_row id (λ q. is_retriable q.state) (revived now) t).0, changed)
]

unfoldable pub fail : ℕ → String → Table → Table × Bool
fail now id t = retry now id "released after failure" now unguarded t

unfoldable pub release : ℕ → String → Table → Table × Bool
release now id t =
    update_row id (λ r. is_executing r.state)
      (λ r. record r {
        state = available;
        scheduled_at = now;
        worker_id = none;
        lease_until = none;
        updated_at = now;
      })
      t

-- `(state IN ('completed', 'cancelled') AND completed_at < p1) OR (state = 'discarded' AND ...)`
unfoldable pub prunable : ℕ → ℕ → Job → Bool
prunable completed_before discarded_before r = elim (r.completed_at) [
  | none ↦ false
  | some at ↦ elim (r.state) [
    | completed ↦ ltb at completed_before
    | cancelled ↦ ltb at completed_before
    | discarded ↦ ltb at discarded_before
    | _ ↦ false
  ]
]

unfoldable pub prune : ℕ → ℕ → Table → Table × ℕ
prune completed_before discarded_before t = (
  filter (λ r. not (prunable completed_before discarded_before r)) t,
  length (filter (prunable completed_before discarded_before) t),
)

unfoldable pub pending : String → Table → ℕ
pending queue t = length (filter (λ r. str_eq r.queue queue && is_runnable r.state) t)
