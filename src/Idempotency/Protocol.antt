-- ===== src/Idempotency/Protocol.antt =====
-- packages/ketjs/src/server/idem.ts: the protocol of a call, claim, then complete or release.
use ketjs.Common.{
  ℕ, ◌+◌, ◌≤◌, String, true, false, ◌≡◌, refl, inl, inr, Option, some, eq_refl, Bool-cases,
  Option-cases, lookup, insert, lookup-insert, arith,
}
use ketjs.Idempotency.{
  IdemRow, IdemTable, pending, done, is_stale, digests_differ, claim, read, complete,
}

lookup-insert_self : (k : String) (v : IdemRow) (t : IdemTable) → lookup k (insert k v t) ≡ some v
lookup-insert_self k v t = simp (lookup-insert, eq_refl)

-- After a claim that answers true, the row is pending since that moment.
claim-row :
    (now : ℕ) (key fn : String) (stale : ℕ) (digest : Option String) (t : IdemTable)
    → (claim now key fn stale digest t).1 ≡ true
    → (r : IdemRow) × (lookup key (claim now key fn stale digest t).0 ≡ some r)
      × (r.state ≡ pending)
      × (r.created_at ≡ now)
      × (r.digest ≡ digest)
unfolding claim
claim-row now key fn stale digest t h = elim (Option-cases (lookup key t)) [
  | inl e ↦ rw (e, claim) (_, lookup-insert_self key _ t, refl, refl, refl)
  | inr (r, e) ↦ elim (Bool-cases (digests_differ digest r.digest)) [
    | inl k ↦ absurd (cc (rw (e, k, claim) at h))
    | inr k ↦ elim (Bool-cases (is_stale now stale r)) [
      | inr l ↦ absurd (cc (rw (e, k, l, claim) at h))
      | inl l ↦
          rw (e, k, l, claim)
            (_, lookup-insert_self key _ t, stale_pending now stale r l, refl, refl)
    ]
  ]
]
  where
    stale_pending : (now stale : ℕ) (r : IdemRow) → is_stale now stale r ≡ true → r.state ≡ pending
    stale_pending now stale r l = ground arith

-- A claim of a key whose row is not stale is refused and changes nothing.
claim_refused :
    (now : ℕ) (key fn : String) (stale : ℕ) (digest : Option String) (t : IdemTable) (r : IdemRow)
    → lookup key t ≡ some r
    → is_stale now stale r ≡ false
    → claim now key fn stale digest t ≡ (t, false)
unfolding claim
claim_refused now key fn stale digest t r e l = elim (Bool-cases (digests_differ digest r.digest)) [
  | inl k ↦ rw (e, k, claim)
  | inr k ↦ rw (e, k, l, claim)
]

-- Once a call has claimed a key, every further claim of the key within the second caller's stale
-- time is refused and changes nothing.
pub claim_exclusive :
    (now later : ℕ) (key fn fn' : String) (stale stale' : ℕ) (digest digest' : Option String)
    (t : IdemTable)
    → (claim now key fn stale digest t).1 ≡ true
    → later ≤ now + stale'
    → let u = (claim now key fn stale digest t).0 in
      claim later key fn' stale' digest' u ≡ (u, false)
claim_exclusive now later key fn fn' stale stale' digest digest' t h k =
    let (r, e, p, c, _) = claim-row now key fn stale digest t h in
    claim_refused later key fn' stale' digest' _ r e (fresh r p c)
  where
    fresh : (r : IdemRow) → r.state ≡ pending → r.created_at ≡ now → is_stale later stale' r ≡ false
    fresh r p c = ground arith

-- Once a claimed call is completed, reading the key gives its result and the digest of the claim,
-- and no later claim of the key, however stale, is granted.
pub complete_final :
    (now later : ℕ) (key fn fn' result : String) (stale stale' : ℕ) (digest digest' : Option String)
    (t : IdemTable)
    → (claim now key fn stale digest t).1 ≡ true
    → let u = complete key result (claim now key fn stale digest t).0 in
      (read key u ≡ some (record { state = done; result = some result; digest = digest }))
      × (claim later key fn' stale' digest' u ≡ (u, false))
unfolding complete read
complete_final now later key fn fn' result stale stale' digest digest' t h =
    let (r, e, p, c, d) = claim-row now key fn stale digest t h in
    rw (e, complete, read)
      (
        rw (lookup-insert_self key _ _, d),
        claim_refused later key fn' stale' digest' _ _ (lookup-insert_self key _ _) refl,
      )
