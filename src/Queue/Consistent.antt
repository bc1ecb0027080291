-- ===== src/Queue/Consistent.antt =====
-- packages/ketjs/src/server/queue.ts: every statement keeps the primary key and the unique index,
-- although only INSERT is written to resolve a conflict.
use ketjs.Common.{
  ℕ, String, Bool, true, false, ◌&&◌, not, ◌≡◌, refl, ◌∙◌, str_eq, eq_iff, Bool-cases, Option-cases,
  any, All-In, In, All-of_In, Any-false, inl, inr, arith,
}
use ketjs.Queue.Row.{Job, Table, update_row, find_row, clash, same_slot}
use ketjs.Queue.Operations.{
  retry_executing, discard_executing, heartbeat, complete, cancel, retry_now, release, prune,
  is_retriable, revived,
}
use ketjs.Queue.Claim.{claimed}
use ketjs.Queue.Unique.{
  NoClash, Quiet, clash-Quiet, clash_comm, id_unique, find_row-some, insert_row-NoClash,
  filter-NoClash, update_row-NoClash,
}
use ketjs.Queue.Steps.{
  Step, inserted, picked_up, beaten, finished, retried, given_up, stopped, reopened, freed, pruned,
  Reach,
}

-- A transition that writes no active row over an inactive one.
Quiet-update :
    (id : String) (p : Job → Bool) (f : Job → Job)
    → ((r : Job) → p r ≡ true → Quiet r (f r))
    → (t : Table) → NoClash t
    → NoClash (update_row id p f t).0
Quiet-update id p f quiet t h =
    update_row-NoClash id p f (λ _. Unit {0})
      (λ r q e _ _ c. clash-Quiet r (f r) q (quiet r (and_right (str_eq r.id id) (p r) e)) c) t
      (All-of_In (λ _. Unit {0}) t (λ _ _. tt)) h
  where
    and_right : (a b : Bool) → (a && b) ≡ true → b ≡ true
    and_right true b k = k
    and_right false b k = cc

module _ (now : ℕ) (id : String) (r : Job) (q : Job) where
  -- The reopened row is checked against the rows with another id.
  revived_apart :
      str_eq r.id id ≡ true
      → clash r q ≡ false
      → (not (str_eq q.id id) && same_slot q (revived now r)) ≡ false
      → clash q (revived now r) ≡ false
  unfolding clash revived
  revived_apart e c v =
      ground (arith, eq_iff r.id id, eq_iff q.id id, eq_iff q.id r.id, eq_iff r.id q.id)

retry_now-NoClash : (now : ℕ) (id : String) (t : Table) → NoClash t → NoClash (retry_now now id t).0
unfolding retry_now
retry_now-NoClash now id t h =
    elim (Option-cases (find_row (λ r. str_eq r.id id && is_retriable r.state) t)) [
      | inl e ↦ rw (e, retry_now) h
      | inr (r, e) ↦
          elim (Bool-cases (any (λ q. not (str_eq q.id id) && same_slot q (revived now r)) t)) [
            | inl v ↦ rw (e, v, retry_now) h
            | inr v ↦ rw (e, v, retry_now) (reopened_apart r (find_row-some _ t e) v)
          ]
    ]
  where
    and_left : (a b : Bool) → (a && b) ≡ true → a ≡ true
    and_left true b k = refl
    and_left false b k = k

    reopened_apart :
        (r : Job)
        → In r t × ((str_eq r.id id && is_retriable r.state) ≡ true)
        → any (λ q. not (str_eq q.id id) && same_slot q (revived now r)) t ≡ false
        → NoClash (update_row id (λ q. is_retriable q.state) (revived now) t).0
    reopened_apart r (m, k) v =
        update_row-NoClash id (λ q. is_retriable q.state) (revived now)
          (λ q.
            ((not (str_eq q.id id) && same_slot q (revived now r)) ≡ false)
            × (str_eq q.id id ≡ true → q ≡ r))
          (λ x q match ox oq c.
            let same = ox.1 (and_left (str_eq x.id id) (is_retriable x.state) match) in
            clash_comm (revived now x) q
            ∙ rw same (
                revived_apart now id r q (and_left (str_eq r.id id) (is_retriable r.state) k)
                  (rw same at c) oq.0))
          t
          (All-of_In _ t (λ q n. (
            All-In (λ y. (not (str_eq y.id id) && same_slot y (revived now r)) ≡ false) n
                (Any-false _ t v),
            id_unique id t h m n (and_left (str_eq r.id id) (is_retriable r.state) k),
          )))
          h

-- Every statement keeps the invariant.
pub Step-NoClash : {t u : Table} → Step t u → NoClash t → NoClash u
unfolding claimed retry_executing discard_executing heartbeat complete cancel release prune
Step-NoClash {t} (inserted at id job args o e) h = rw e (insert_row-NoClash _ t h)
Step-NoClash {t} (picked_up at o id e) h = rw e (Quiet-update id _ _ (λ r p. ground arith) t h)
Step-NoClash {t} (beaten now id w lease e) h = rw e (Quiet-update id _ _ (λ r p. ground arith) t h)
Step-NoClash {t} (finished now id g e) h = rw e (Quiet-update id _ _ (λ r p. ground arith) t h)
Step-NoClash {t} (retried now id message run_at g known e) h =
    rw e (Quiet-update id _ _ (λ r p. ground arith) t h)
Step-NoClash {t} (given_up now id message g known e) h =
    rw e (Quiet-update id _ _ (λ r p. ground arith) t h)
Step-NoClash {t} (stopped now id e) h = rw e (Quiet-update id _ _ (λ r p. ground arith) t h)
Step-NoClash {t} (reopened now id e) h = rw e (retry_now-NoClash now id t h)
Step-NoClash {t} (freed now id e) h = rw e (Quiet-update id _ _ (λ r p. ground arith) t h)
Step-NoClash {t} (pruned c d e) h = rw e (filter-NoClash _ t h)

-- From a table in which no two rows share an id or an active unique key, every interleaving of
-- the statements leads to such a table.
pub Reach-NoClash : {t u : Table} → Reach t u → NoClash t → NoClash u
Reach-NoClash Reach.here h = h
Reach-NoClash (Reach.next r s) h = Step-NoClash s (Reach-NoClash r h)
