-- ===== src/Pool/Steps.antt =====
-- packages/ketjs/src/data/pool.ts: any interleaving of the stretches of code. The lock admits one
-- holder at a time; what an acquire does after its admission may come at any time later.
use ketjs.Common.{ℕ, String, ◌≡◌, []}
use ketjs.Pool.{opened, shutting, unlocked, Pool}
use ketjs.Pool.Operations.{
  enter_admission, lease, resume, opening_done, opening_failed, release, evict_idle, start_drain,
  shut_down, victim_closed, victim_failed,
}

unfoldable pub empty_pool : Pool
empty_pool = record { entries = []; lifecycle = opened; admission = unlocked; next = 0 }

pub data Step (max : ℕ) (p : Pool) : Pool → Type 0 where
  entering :
      (key : String) (now : ℕ)
      → p.admission ≡ unlocked
      → Step max p (enter_admission max key now p).0
  leasing : (key : String) (number : ℕ) → Step max p (lease key number p).0
  resuming : (key : String) (number now : ℕ) → Step max p (resume key number now p).0
  opening_well : (key : String) (number : ℕ) → Step max p (opening_done key number p)
  opening_badly : (key : String) (number : ℕ) → Step max p (opening_failed key number p)
  releasing : (key : String) (now : ℕ) → Step max p (release key now p)
  sweeping_idle :
      (idle_ms now : ℕ) → p.admission ≡ unlocked → Step max p (evict_idle idle_ms now p).0
  shutting_down : p.lifecycle ≡ opened → Step max p (shut_down p)
  starting_drain : p.admission ≡ unlocked → p.lifecycle ≡ shutting → Step max p (start_drain p).0
  closing_well : (now : ℕ) → Step max p (victim_closed max now p.admission p).0
  closing_badly : Step max p (victim_failed p.admission p)

pub data Reach (max : ℕ) : Pool → Type 0 where
  start : Reach max empty_pool
  step : {p q : Pool} → Reach max p → Step max p q → Reach max q
