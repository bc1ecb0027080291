-- ===== src/Queue/Row.antt =====
-- packages/ketjs/src/server/queue.ts: the rows of `ket_job`, its unique indexes, and the INSERT,
-- UPDATE and SELECT statements that the operations are written in. An instant is a number of
-- milliseconds; an encoded JSON value is its text; `priority` and the counters are naturals.
use ketjs.Common.{
  ℕ, ◌-◌, String, Bool, true, false, ◌&&◌, ◌||◌, Option, none, some, List, [], ◌∷◌, ◌++◌, str_eq,
  if◌then◌else◌, any, length, drop,
}

pub data JobState : Type 0 where
  available scheduled executing retryable completed discarded cancelled : JobState

pub record JobError : Type 0 where
  pub at : ℕ
  pub attempt : ℕ
  pub message : String

pub record Scope : Type 0 where
  pub company : Option String
  pub companies : Option String
  pub branch : Option String
  pub branches : Option String

pub record Job : Type 0 where
  pub id : String
  pub job : String
  pub queue : String
  pub args : String
  pub state : JobState
  pub priority : ℕ
  pub attempt : ℕ
  pub max_attempts : ℕ
  pub scheduled_at : ℕ
  pub attempted_at : Option ℕ
  pub completed_at : Option ℕ
  pub worker_id : Option String
  pub lease_until : Option ℕ
  pub actor : Option String
  pub scope : Scope
  pub unique_key : Option String
  pub errors : List JobError
  pub inserted_at : ℕ
  pub updated_at : ℕ

abbrev pub Table : Type 0
Table = List Job

-- `state IN ('available', 'scheduled', 'retryable')`
abbrev pub is_runnable : JobState → Bool
is_runnable available = true
is_runnable scheduled = true
is_runnable retryable = true
is_runnable _ = false

-- `state IN ('available', 'scheduled', 'executing', 'retryable')`
abbrev pub is_active : JobState → Bool
is_active executing = true
is_active s = is_runnable s

abbrev pub is_executing : JobState → Bool
is_executing executing = true
is_executing _ = false

-- `state IN ('completed', 'discarded', 'cancelled')`
abbrev pub is_terminal : JobState → Bool
is_terminal completed = true
is_terminal discarded = true
is_terminal cancelled = true
is_terminal _ = false

-- `COALESCE(company_id, '')`
abbrev pub coalesce : Option String → String
coalesce none = ""
coalesce (some s) = s

-- `a = b` in SQL, which a NULL never satisfies.
abbrev pub sql_eq : Option String → Option String → Bool
sql_eq (some a) (some b) = str_eq a b
sql_eq _ _ = false

-- Whether two rows share an entry of the index `ket_job_unique_company`.
unfoldable pub same_slot : Job → Job → Bool
same_slot a b =
    is_active a.state
    && (is_active b.state
        && (str_eq a.job b.job
            && (sql_eq a.unique_key b.unique_key
                && str_eq (coalesce a.scope.company) (coalesce b.scope.company))))

-- Whether two rows violate the primary key or the unique index.
unfoldable pub clash : Job → Job → Bool
clash a b = str_eq a.id b.id || same_slot a b

-- `INSERT ... ON CONFLICT DO NOTHING`, with the number of changes.
unfoldable pub insert_row : Job → Table → Table × Bool
insert_row j t = if any (λ r. clash r j) t then (t, false) else (t ++ j ∷ [], true)

-- `UPDATE ... WHERE id = ... AND p`. The id is the primary key, so `changes` is 0 or 1.
unfoldable pub update_row : String → (Job → Bool) → (Job → Job) → Table → Table × Bool
update_row id p f [] = ([], false)
update_row id p f (r ∷ t) =
    let (t', changed) = update_row id p f t in
    if str_eq r.id id && p r then (f r ∷ t', true) else (r ∷ t', changed)

-- `SELECT * FROM ket_job WHERE id = ...`
unfoldable pub get : String → Table → Option Job
get id [] = none
get id (r ∷ t) = if str_eq r.id id then some r else get id t

-- The first row of `SELECT id ... WHERE p LIMIT 1`.
unfoldable pub find_row : (Job → Bool) → Table → Option Job
find_row p [] = none
find_row p (r ∷ t) = if p r then some r else find_row p t

-- The argument `workerId?: string | null`, as `undefined`, `null` and a string.
pub data WorkerGuard : Type 0 where
  unguarded : WorkerGuard
  no_worker : WorkerGuard
  worker : String → WorkerGuard

-- The condition that `workerGuard` adds to a statement.
unfoldable pub worker_guard : WorkerGuard → Job → Bool
worker_guard unguarded r = true
worker_guard no_worker r = elim (r.worker_id) [ none ↦ true | some w ↦ false ]
worker_guard (worker w) r = sql_eq r.worker_id (some w)

-- `[...errors, entry].slice(-20)`
unfoldable pub push_error : JobError → List JobError → List JobError
push_error e es = let all = es ++ e ∷ [] in drop (length all - 20) all
