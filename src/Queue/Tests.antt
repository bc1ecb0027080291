-- ===== src/Queue/Tests.antt =====
-- packages/ketjs/src/server/queue.ts: runs of the queue, and its theorems at concrete tables.
use ketjs.Common.{
  ◌≤◌, length, filter, String, Bool, true, false, ◌≡◌, refl, ◌⊎◌, Option, none, some, [], ◌∷◌, map,
  str_eq, if◌then◌else◌, IsOrder, All, In, here, there, any, arith,
}
use ketjs.Queue.Row.{Job, Table, clash, same_slot, insert_row, update_row, find_row, get, worker}
use ketjs.Queue.Operations.{
  EnqueueOptions, new_row, enqueue, resolve, complete, queued, heartbeat, retry, discard, holds_key,
}
use ketjs.Queue.Claim.{
  ClaimOptions, claimed, has_id, claim_each, pick, claim_sqlite, claim_postgres, is_due,
  claim_order, clamp, is_lost, rescue,
}
use ketjs.Queue.Unique.{NoClash}
use ketjs.Queue.Steps.{finished, claim_sqlite-Reach}
use ketjs.Queue.Consistent.{Reach-NoClash}
use ketjs.Queue.Lifecycle.{Evolves, Step-Evolves}
use ketjs.Queue.Exclusive.{claim_sqlite_lem, claim_postgres-claim_sqlite}
use ketjs.Queue.Guarantees.{ComesFirst, pick_first, claimed_fenced, claims_disjoint}
use ketjs.Queue.Rescued.{Pairs, Becomes, rescue-Pairs}
use ketjs.Queue.Coalesce.{Promises, enqueue-Promises, enqueue_total}

abbrev options : Option String → EnqueueOptions
options key = record {
  run_at = none;
  priority = none;
  max_attempts = none;
  queue = some "mail";
  actor = none;
  scope = none;
  unique_key = key;
}

-- Two waiting jobs of the queue "mail", one with a unique key.
abbrev two_jobs : Table
two_jobs =
    new_row 100 "a" "send" "{}" (options (some "k"))
    ∷ new_row 101 "b" "send" "{}" (options none)
    ∷ []

abbrev by_worker : String → ClaimOptions
by_worker w = record { limit = 1; worker_id = w; lease_ms = 1000 }

abbrev any_order : String → String → Bool
any_order a b = true

any_order-IsOrder : IsOrder any_order
any_order-IsOrder = record { total = λ x y h. refl; trans = λ x y z h k. refl }

two_jobs-NoClash : NoClash two_jobs
unfolding clash same_slot new_row
two_jobs-NoClash = ((refl, tt), (tt, tt))

-- The first claim takes "a", the second "b".
claims_in_turn :
    let (u, first) = claim_sqlite any_order 200 "mail" (by_worker "w1") two_jobs in
    (map (λ (j : Job). j.id) first ≡ "a" ∷ [])
    × (map (λ (j : Job). j.id) (claim_sqlite any_order 200 "mail" (by_worker "w2") u).1 ≡ "b" ∷ [])
unfolding claim_sqlite claim_each pick is_due claim_order claimed update_row get new_row
claims_in_turn = (refl, refl)

Reach-NoClash_example : NoClash (claim_sqlite any_order 200 "mail" (by_worker "w1") two_jobs).0
Reach-NoClash_example =
    Reach-NoClash (claim_sqlite-Reach any_order 200 "mail" (by_worker "w1") two_jobs)
      two_jobs-NoClash

abbrev first_claimed : Table
first_claimed = (update_row "a" (λ r. true) (claimed 200 (by_worker "w1")) two_jobs).0

Step-Evolves_example : Evolves first_claimed (complete 300 "a" (worker "w1") first_claimed).0
Step-Evolves_example = Step-Evolves (finished 300 "a" (worker "w1") refl)

claim_sqlite_lem_example : claim_sqlite any_order 200 "mail" (by_worker "w1") two_jobs ≡ (
  map
      (λ r.
        if has_id (pick any_order 200 "mail" 1 two_jobs) r.id
        then claimed 200 (by_worker "w1") r
        else r)
      two_jobs,
  map (claimed 200 (by_worker "w1")) (pick any_order 200 "mail" 1 two_jobs),
)
claim_sqlite_lem_example =
    claim_sqlite_lem any_order 200 "mail" (by_worker "w1") two_jobs two_jobs-NoClash

claim_postgres-claim_sqlite_example :
    (claim_postgres any_order (λ id. false) 200 "mail" (by_worker "w1") two_jobs).0
    ≡ (claim_sqlite any_order 200 "mail" (by_worker "w1") two_jobs).0
claim_postgres-claim_sqlite_example =
    claim_postgres-claim_sqlite any_order 200 "mail" (by_worker "w1") two_jobs two_jobs-NoClash

abbrev job_a : Job
job_a = new_row 100 "a" "send" "{}" (options (some "k"))

abbrev job_b : Job
job_b = new_row 101 "b" "send" "{}" (options none)

a_picked : In job_a (pick any_order 200 "mail" 1 two_jobs)
unfolding pick is_due claim_order new_row
a_picked = here refl

b_due : is_due 200 "mail" job_b ≡ true
unfolding is_due new_row
b_due = refl

pick_first_example :
    In job_b (pick any_order 200 "mail" 1 two_jobs)
    ⊎ (ComesFirst any_order job_a job_b
        × (length (pick any_order 200 "mail" 1 two_jobs) ≡ clamp 100 1))
pick_first_example =
    pick_first any_order 200 "mail" any_order-IsOrder 1 two_jobs a_picked (there (here refl)) b_due

claimed_fenced_example :
    let u = (claim_sqlite any_order 200 "mail" (by_worker "w1") two_jobs).0 in
    (heartbeat 300 job_a.id "w2" 1000 u ≡ (u, false))
    × (complete 300 job_a.id (worker "w2") u ≡ (u, false))
    × (retry 300 job_a.id "late" 400 (worker "w2") u ≡ (u, false))
    × (discard 300 job_a.id "late" (worker "w2") u ≡ (u, false))
claimed_fenced_example =
    claimed_fenced any_order 200 "mail" (by_worker "w1") two_jobs two_jobs-NoClash job_a 300 "w2"
      "late" 1000 400 a_picked refl

claims_disjoint_example :
    let (u, first) = claim_sqlite any_order 200 "mail" (by_worker "w1") two_jobs in
    All (λ j. has_id first j.id ≡ false) (claim_sqlite any_order 210 "mail" (by_worker "w2") u).1
claims_disjoint_example =
    claims_disjoint any_order 200 "mail" (by_worker "w1") two_jobs two_jobs-NoClash 210 "mail"
      (by_worker "w2")

enqueue-Promises_example :
    Promises
      (new_row 110 "c" "send" "{}" (options (some "k")))
      (enqueue (λ _ t. t) 110 "c" "send" "{}" (options (some "k")) two_jobs)
enqueue-Promises_example =
    enqueue-Promises (λ _ t. t) 110 "c" "send" "{}" (options (some "k")) two_jobs

-- The unique key is held by "a".
coalesced :
    enqueue (λ _ t. t) 110 "c" "send" "{}" (options (some "k")) two_jobs
    ≡ (two_jobs, queued "a" true)
unfolding enqueue insert_row clash same_slot resolve find_row holds_key new_row
coalesced = refl

no_such_id : any (λ r. str_eq r.id "c") two_jobs ≡ false
unfolding new_row
no_such_id = refl

enqueue_total_example :
    (found : String) × (existing : Bool) × ((enqueue
        (λ _ u. u)
        110
        "c"
        "send"
        "{}"
        (options (some "k"))
        two_jobs).1
      ≡ queued found existing)
enqueue_total_example =
    enqueue_total 110 "c" "send" "{}" (options (some "k")) two_jobs refl (omega arith) no_such_id

-- The lease of "a" has run out.
one_lost : length (filter (is_lost 5000) first_claimed) ≤ clamp 1000 10
unfolding is_lost update_row claimed new_row
one_lost = omega arith

first_claimed-NoClash : NoClash first_claimed
unfolding update_row clash same_slot new_row claimed
first_claimed-NoClash = ((refl, tt), (tt, tt))

rescue-Pairs_example : Pairs (Becomes 5000) first_claimed (rescue any_order 5000 10 first_claimed).0
rescue-Pairs_example = rescue-Pairs 5000 any_order 10 first_claimed first_claimed-NoClash one_lost
