-- ===== src/RateLimit/Tests.antt =====
-- packages/ketjs/src/server/ratelimit.ts: two replicas and a limit of one.
use ketjs.Common.{ℕ, ◌≤◌, true, false, ◌≡◌, refl, Option, none, some, [], ◌∷◌}
use ketjs.RateLimit.{
  Counter, RatePolicy, limit_of, attempt, insert_counter, move_counter, claim_loop, claim_rate_slot,
  in_window, refused,
}
use ketjs.RateLimit.Bounded.{granted_in, start_of, play, Reach, start, round, Reach-bounded}

abbrev once : RatePolicy
once = record { limit = 1; window_ms = 1000 }

abbrev open_row : Option Counter
open_row = some (record { started = some 5; count = 1 })

-- The slot is granted at 5, refused at 6 with the rest of the window to wait, granted again at 1005.
verdicts :
    ((claim_rate_slot (λ _ r. r) once 5 none).1.ok ≡ true)
    × ((claim_rate_slot (λ _ r. r) once 6 open_row).1
        ≡ record { ok = false; remaining = 0; retry_after_ms = 999 })
    × ((claim_rate_slot (λ _ r. r) once 1005 open_row).1.ok ≡ true)
unfolding claim_rate_slot claim_loop attempt insert_counter move_counter in_window refused
verdicts = (refl, refl, refl)

-- Both replicas saw no row. The second INSERT is refused.
raced : Reach once (open_row, 5 ∷ [])
unfolding play attempt insert_counter
raced = round 6 none (round 5 none start)

Reach-bounded_example :
    ((s : ℕ) → granted_in s (5 ∷ []) ≤ limit_of once)
    × ((c : Counter) → open_row ≡ some c → c.count ≡ granted_in (start_of open_row) (5 ∷ []))
Reach-bounded_example = Reach-bounded raced
