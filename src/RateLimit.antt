-- ===== src/RateLimit.antt =====
-- packages/ketjs/src/server/ratelimit.ts: the durable rate limiter. One row of `ket_rate` is a
-- counter; the statements on it run between those of other replicas. `idOf` hashes the action and
-- the key, so an id stands for the pair.
pub mod Bounded
mod Tests
use ketjs.Common.{
  ℕ, zero, suc, ◌+◌, ◌-◌, ◌*◌, String, Bool, true, false, ◌&&◌, ◌||◌, not, Option, none, some, List,
  [], ◌∷◌, ltb, leb, ◌==◌, if◌then◌else◌, filter, length, str_eq,
}

-- `started` is the parsed `window_start`; text that is no date is `none`.
pub record Counter : Type 0 where
  pub started : Option ℕ
  pub count : ℕ

pub record RatePolicy : Type 0 where
  pub limit : ℕ
  pub window_ms : ℕ

pub record RateVerdict : Type 0 where
  pub ok : Bool
  pub remaining : ℕ
  pub retry_after_ms : ℕ

abbrev pub at_least : ℕ → ℕ → ℕ
at_least n m = if ltb m n then n else m

abbrev pub limit_of : RatePolicy → ℕ
limit_of p = at_least 1 p.limit

abbrev pub window_of : RatePolicy → ℕ
window_of p = at_least 1 p.window_ms

-- `now - startedAt < windowMs`. A start after `now` gives a negative difference.
unfoldable pub in_window : RatePolicy → ℕ → Counter → Bool
in_window p now c = elim (c.started) [ none ↦ false | some s ↦ ltb now (s + window_of p) ]

abbrev pub started_eq : Option ℕ → Option ℕ → Bool
started_eq none none = true
started_eq (some a) (some b) = a == b
started_eq _ _ = false

-- `INSERT ... ON CONFLICT DO NOTHING`
unfoldable pub insert_counter : ℕ → Option Counter → Option Counter × Bool
insert_counter now none = (some (record { started = some now; count = 1 }), true)
insert_counter now (some c) = (some c, false)

-- `UPDATE ... WHERE window_start = ... AND count = ...`, a compare-and-set on what was read.
unfoldable pub move_counter : Counter → Counter → Option Counter → Option Counter × Bool
move_counter read next none = (none, false)
move_counter read next (some c) =
    if started_eq c.started read.started && c.count == read.count
    then (some next, true)
    else (some c, false)

-- What the next row is, from the row that was read.
unfoldable pub next_counter : RatePolicy → ℕ → Counter → Counter
next_counter p now c =
    if in_window p now c
    then record { started = c.started; count = c.count + 1 }
    else record { started = some now; count = 1 }

unfoldable pub refused : RatePolicy → ℕ → Counter → RateVerdict
refused p now c = record {
  ok = false;
  remaining = 0;
  retry_after_ms = at_least 1 (elim (c.started) [ none ↦ 0 | some s ↦ s + window_of p - now ]);
}

abbrev pub granted : ℕ → RateVerdict
granted n = record { ok = true; remaining = n; retry_after_ms = 0 }

-- One round: a read, then an INSERT or a compare-and-set. `none` is the `continue`.
unfoldable pub attempt :
    (Option Counter → Option Counter)
    → RatePolicy
    → ℕ
    → Option Counter
    → Option Counter × Option RateVerdict
attempt other p now none =
    let (row, changed) = insert_counter now (other none) in
    (row, if changed then some (granted (limit_of p - 1)) else none)
attempt other p now (some c) =
    if in_window p now c && leb (limit_of p) c.count
    then (some c, some (refused p now c))
    else (let (row, changed) = move_counter c (next_counter p now c) (other (some c)) in
        (row, if changed then some (granted (limit_of p - (next_counter p now c).count)) else none))

-- The loop of `claimRateSlot`: `n` rounds are left, and `other` is what the other replicas do
-- before each statement of each round.
unfoldable pub claim_loop :
    (ℕ → Option Counter → Option Counter)
    → RatePolicy
    → ℕ
    → ℕ
    → Option Counter
    → Option Counter × RateVerdict
claim_loop other p now zero row = (row, record { ok = false; remaining = 0; retry_after_ms = 1000 })
claim_loop other p now (suc n) row =
    let read = other (n * 2 + 1) row in
    let tried = attempt (other (n * 2)) p now read in
    elim (tried.1) [ some verdict ↦ (tried.0, verdict) | none ↦ claim_loop other p now n tried.0 ]

unfoldable pub claim_rate_slot :
    (ℕ → Option Counter → Option Counter)
    → RatePolicy
    → ℕ
    → Option Counter
    → Option Counter × RateVerdict
claim_rate_slot other p now row = claim_loop other p now 8 row

-- `pruneRateSlots` deletes the counters whose window started before the cutoff.
unfoldable pub prune_rate_slots : ℕ → ℕ → List (String × ℕ) → List (String × ℕ) × ℕ
prune_rate_slots now older_than_ms rows =
    let cutoff = now - at_least 60000 older_than_ms in
    (
      filter (λ (r : String × ℕ). not (ltb r.1 cutoff)) rows,
      length (filter (λ (r : String × ℕ). ltb r.1 cutoff) rows),
    )
