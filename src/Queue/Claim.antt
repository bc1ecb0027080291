-- ===== src/Queue/Claim.antt =====
-- packages/ketjs/src/server/queue.ts: `claimBatch` on PostgreSQL and on SQLite, and `rescue`.
-- `text_le` is the order in which the database compares ids.
use ketjs.Common.{
  ℕ, ◌+◌, String, Bool, true, false, ◌&&◌, not, Option, none, some, List, [], ◌∷◌, map, ltb, leb,
  ◌==◌, str_eq, if◌then◌else◌, any, filter, take, sort_by,
}
use ketjs.Queue.Row.{
  executing, Job, Table, is_runnable, is_executing, update_row, get, WorkerGuard, no_worker, worker,
}
use ketjs.Queue.Operations.{retry_executing, discard_executing}

pub record ClaimOptions : Type 0 where
  pub limit : ℕ
  pub worker_id : String
  pub lease_ms : ℕ

-- `Math.max(1, Math.min(most, n))`
abbrev pub clamp : ℕ → ℕ → ℕ
clamp most n = if ltb most n then most else if ltb n 1 then 1 else n

-- The WHERE clause of the pick, the same on both databases.
unfoldable pub is_due : ℕ → String → Job → Bool
is_due at queue r = str_eq r.queue queue && (is_runnable r.state && leb r.scheduled_at at)

-- The SET clause of the claim.
unfoldable pub claimed : ℕ → ClaimOptions → Job → Job
claimed at o r = record r {
  state = executing;
  attempt = r.attempt + 1;
  attempted_at = some at;
  worker_id = some o.worker_id;
  lease_until = some (at + o.lease_ms);
  updated_at = at;
}

abbrev pub has_id : List Job → String → Bool
has_id picked id = any (λ p. str_eq p.id id) picked

abbrev found_first : Option Job → List Job → List Job
found_first none js = js
found_first (some j) js = j ∷ js

-- The SQLite loop over the picked ids: a guarded update, then the row is read again.
unfoldable pub claim_each : ℕ → ClaimOptions → List Job → Table → Table × List Job
claim_each at o [] t = (t, [])
claim_each at o (p ∷ ps) t =
    let step =
      update_row p.id (λ r. is_runnable r.state && leb r.scheduled_at at) (claimed at o) t in
    let rest = claim_each at o ps step.0 in
    if step.1 then (rest.0, found_first (get p.id step.0) rest.1) else rest

-- `lease_until < at`, which a NULL never satisfies.
abbrev pub is_expired : ℕ → Job → Bool
is_expired at r = elim (r.lease_until) [ none ↦ false | some u ↦ ltb u at ]

unfoldable pub is_lost : ℕ → Job → Bool
is_lost at r = is_executing r.state && is_expired at r

-- The observed worker id, as the guard of the transition.
abbrev pub lease_token : Option String → WorkerGuard
lease_token none = no_worker
lease_token (some w) = worker w

pub record Rescued : Type 0 where
  pub retried : ℕ
  pub discarded : ℕ

-- The loop of `rescue` over the rows that it read.
unfoldable pub rescue_each : ℕ → List Job → Table → Rescued → Table × Rescued
rescue_each at [] t n = (t, n)
rescue_each at (j ∷ js) t n =
    let lost : String = "worker lease expired" in
    let given_up = discard_executing at j.id lost (lease_token j.worker_id) (some j) t in
    let again = retry_executing at j.id lost at (lease_token j.worker_id) (some j) t in
    let spent = leb j.max_attempts j.attempt in
    rescue_each at js (if spent then given_up.0 else again.0) (
      if spent
      then (if given_up.1 then record n { discarded = n.discarded + 1 } else n)
      else (if again.1 then record n { retried = n.retried + 1 } else n))

module _ (text_le : String → String → Bool) where
  -- `ORDER BY priority, scheduled_at, id`
  unfoldable pub claim_order : Job → Job → Bool
  claim_order a b =
      if a.priority == b.priority
      then (if a.scheduled_at == b.scheduled_at
          then text_le a.id b.id
          else ltb a.scheduled_at b.scheduled_at)
      else ltb a.priority b.priority

  unfoldable pub pick : ℕ → String → ℕ → Table → List Job
  pick at queue limit t = take (clamp 100 limit) (sort_by claim_order (filter (is_due at queue) t))

  -- One statement: pick, update, and return the rows that were written.
  -- `locked` are the ids of the rows that FOR UPDATE SKIP LOCKED passes over.
  unfoldable pub claim_postgres :
      (String → Bool) → ℕ → String → ClaimOptions → Table → Table × List Job
  claim_postgres locked at queue o t =
      let picked = pick at queue o.limit (filter (λ r. not (locked r.id)) t) in
      (
        map (λ r. if has_id picked r.id then claimed at o r else r) t,
        map (claimed at o) (filter (λ r. has_id picked r.id) t),
      )

  unfoldable pub claim_sqlite : ℕ → String → ClaimOptions → Table → Table × List Job
  claim_sqlite at queue o t = claim_each at o (pick at queue o.limit t) t

  -- `ORDER BY lease_until, id`
  unfoldable pub rescue_order : Job → Job → Bool
  rescue_order a b = elim (a.lease_until) [
    | none ↦ true
    | some u ↦ elim (b.lease_until) [
      | none ↦ false
      | some v ↦ if u == v then text_le a.id b.id else ltb u v
    ]
  ]

  unfoldable pub rescue : ℕ → ℕ → Table → Table × Rescued
  rescue at limit t =
      rescue_each at (take (clamp 1000 limit) (sort_by rescue_order (filter (is_lost at) t))) t
        (record { retried = 0; discarded = 0 })
