-- ===== src/RateLimit/Bounded.antt =====
-- packages/ketjs/src/server/ratelimit.ts: the ceiling under contention. Replicas read and write the
-- counter in any order; a log records, for every slot that was granted, the start of the window
-- that it was counted in. Pruning is not a step here.
use ketjs.Common.{
  ℕ, suc, ◌+◌, ◌≤◌, ◌<◌, true, false, ◌&&◌, ◌≡◌, refl, ◌∙◌, inl, inr, Option, none, some, List, [],
  ◌∷◌, leb, ◌==◌, if◌then◌else◌, Bool-cases, arith,
}
use ketjs.RateLimit.{
  Counter, RatePolicy, RateVerdict, limit_of, in_window, insert_counter, move_counter, next_counter,
  refused, attempt, started_eq,
}

abbrev pub start_of : Option Counter → ℕ
start_of none = 0
start_of (some c) = elim (c.started) [ none ↦ 0 | some s ↦ s ]

-- How many slots were granted in the window that starts at `s`.
abbrev pub granted_in : ℕ → List ℕ → ℕ
granted_in s [] = 0
granted_in s (x ∷ log) = let rest = granted_in s log in if x == s then suc rest else rest

-- What a round's result means for the row and the log.
abbrev pub settle :
    Option Counter → List ℕ → Option Counter × Option RateVerdict → Option Counter × List ℕ
settle row log (row', none) = (row, log)
settle row log (row', some v) = if v.ok then (row', start_of row' ∷ log) else (row, log)

-- A replica's round, of which the read saw `read` and the write meets `row`.
unfoldable pub play :
    RatePolicy → ℕ → Option Counter → Option Counter × List ℕ → Option Counter × List ℕ
play p now read (row, log) = settle row log (attempt (λ _. row) p now read)

pub data Reach (p : RatePolicy) : Option Counter × List ℕ → Type 0 where
  start : Reach p (none, [])
  round :
      {s : Option Counter × List ℕ} (now : ℕ) (read : Option Counter)
      → Reach p s
      → Reach p (play p now read s)

-- What holds of the row and the log between two rounds.
abbrev Holds : RatePolicy → Option Counter × List ℕ → Type 0
Holds p (none, log) = (s : ℕ) → granted_in s log ≡ 0
Holds p (some c, log) =
    (w : ℕ) × (c.started ≡ some w)
    × (c.count ≡ granted_in w log)
    × (c.count ≤ limit_of p)
    × ((s : ℕ) → w < s → granted_in s log ≡ 0)
    × ((s : ℕ) → granted_in s log ≤ limit_of p)

limit_pos : (p : RatePolicy) → 1 ≤ limit_of p
limit_pos p = ground arith

-- A slot granted in a window that starts now.
fresh_window :
    (p : RatePolicy) (now : ℕ) (log : List ℕ)
    → ((s : ℕ) → now ≤ s → granted_in s log ≡ 0)
    → ((s : ℕ) → granted_in s log ≤ limit_of p)
    → Holds p (some (record { started = some now; count = 1 }), now ∷ log)
fresh_window p now log empty bounded = (
  now,
  refl,
  ground (arith, empty now (omega arith)),
  limit_pos p,
  λ s h. ground (arith, empty s (omega arith)),
  λ s. ground (arith, bounded s, empty s, limit_pos p),
)

-- A slot granted in the window that is open.
open_window :
    (p : RatePolicy) (c : Counter) (log : List ℕ) (w : ℕ)
    → c.started ≡ some w
    → c.count < limit_of p
    → Holds p (some c, log)
    → Holds p (some (record { started = some w; count = c.count + 1 }), w ∷ log)
open_window p c log w e room (w', e', counted, capped, later, bounded) =
    let same : w' ≡ w = cc in
    let counted' : c.count ≡ granted_in w log = rw (← same) counted in
    (
      w,
      refl,
      ground (arith, counted'),
      omega arith,
      λ s h. ground (arith, later s (rw same h)),
      λ s. ground (arith, bounded s, counted'),
    )

closed_window :
    (p : RatePolicy) (now : ℕ) (r : Counter) (w : ℕ)
    → r.started ≡ some w
    → in_window p now r ≡ false
    → w < now
unfolding in_window
closed_window p now r w e h = ground arith

cas_read :
    (c r : Counter)
    → (started_eq c.started r.started && c.count == r.count) ≡ true
    → (r.started ≡ c.started) × (r.count ≡ c.count)
cas_read c r h = ground arith

counted_round :
    (p : RatePolicy) (now : ℕ) (r c : Counter) (log : List ℕ)
    → (in_window p now r && leb (limit_of p) r.count) ≡ false
    → (r.started ≡ c.started) × (r.count ≡ c.count)
    → Holds p (some c, log)
    → Holds p (some (next_counter p now r), start_of (some (next_counter p now r)) ∷ log)
unfolding next_counter
counted_round p now r c log room (same_start, same_count) h =
    elim (Bool-cases (in_window p now r)) [
      | inl e ↦
          let started : r.started ≡ some h.0 = same_start ∙ h.1 in
          rw (e, started, same_count) (open_window p c log h.0 h.1 (ground arith) h)
      | inr e ↦
          let started : r.started ≡ some h.0 = same_start ∙ h.1 in
          rw e (
            fresh_window p now log
              (λ s k. h.4 s (omega (arith, closed_window p now r h.0 started e))) h.5)
    ]

play-Holds :
    (p : RatePolicy) (now : ℕ) (read : Option Counter) (s : Option Counter × List ℕ)
    → Holds p s
    → Holds p (play p now read s)
unfolding play attempt insert_counter move_counter refused
play-Holds p now none (none, log) h = fresh_window p now log (λ s _. h s) (λ s. omega (arith, h s))
play-Holds p now none (some c, log) h = h
play-Holds p now (some r) (none, log) h =
    elim (Bool-cases (in_window p now r && leb (limit_of p) r.count)) [
      | inl e ↦ rw e h
      | inr e ↦ rw e h
    ]
play-Holds p now (some r) (some c, log) h =
    elim (Bool-cases (in_window p now r && leb (limit_of p) r.count)) [
      | inl e ↦ rw e h
      | inr e ↦ elim (Bool-cases (started_eq c.started r.started && c.count == r.count)) [
        | inr k ↦ rw (e, k) h
        | inl k ↦ rw (e, k) (counted_round p now r c log e (cas_read c r k) h)
      ]
    ]

Reach-Holds : {p : RatePolicy} {s : Option Counter × List ℕ} → Reach p s → Holds p s
Reach-Holds start = λ s. refl
Reach-Holds {p} (round {s} now read r) = play-Holds p now read s (Reach-Holds r)

counted_row :
    (log : List ℕ) (w : ℕ) (c d : Counter)
    → c.started ≡ some w
    → c.count ≡ granted_in w log
    → some c ≡ some d
    → d.count ≡ granted_in (start_of (some c)) log
counted_row log w c d e k h = let same : d ≡ c = cc in rw (same, e) k

-- However the reads and writes of the replicas interleave, and however old what a replica has
-- read is, no window grants more slots than the limit, and the row counts the slots of its window.
pub Reach-bounded :
    {p : RatePolicy} {row : Option Counter} {log : List ℕ}
    → Reach p (row, log)
    → ((s : ℕ) → granted_in s log ≤ limit_of p)
      × ((c : Counter) → row ≡ some c → c.count ≡ granted_in (start_of row) log)
Reach-bounded {row = none} r = (λ s. omega (arith, Reach-Holds r s), λ c e. cc)
Reach-bounded {row = some c} {log} r =
    let h = Reach-Holds r in (h.5, λ d e. counted_row log h.0 c d h.1 h.2 e)
