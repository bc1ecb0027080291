-- ===== src/Pool.antt =====
-- The pool of database adapters, packages/ketjs/src/data/pool.ts. Operations are the stretches of
-- code between two awaits, Steps their interleavings. The set `closing` is a flag of an entry; a
-- number tells an entry from another one under the same key.
pub mod Operations
pub mod Steps
pub mod Victim
pub mod Safe
pub mod Reachable
mod Tests
use ketjs.Common.{ℕ, String, Bool, List}

pub record Entry : Type 0 where
  pub number : ℕ
  pub leases : ℕ
  pub last_used : ℕ
  pub opening : Bool
  pub connected : Bool
  pub closing : Bool

pub data Lifecycle : Type 0 where
  opened : Lifecycle
  shutting : Lifecycle
  shut : Lifecycle

-- What the holder of the admission lock waits for: that the adapter of an entry has closed. The
-- acquire of a key makes room for it; evictIdle and close go on with the entries that are left.
pub data Admission : Type 0 where
  unlocked : Admission
  making_room : String → String → ℕ → Admission
  sweeping : ℕ → ℕ → ℕ → String → ℕ → List (String × ℕ) → Admission
  draining : String → ℕ → List (String × ℕ) → Admission

pub record Pool : Type 0 where
  pub entries : List (String × Entry)
  pub lifecycle : Lifecycle
  pub admission : Admission
  pub next : ℕ

pub data Refusal : Type 0 where
  pool_closed : Refusal
  pool_full : Refusal
  entry_closing : Refusal
  not_connected : Refusal

-- What a stretch of code ends with: the entry of a key, an await, the adapter, the number of closed
-- entries, or an error.
pub data Answer : Type 0 where
  found : ℕ → Answer
  waiting : Answer
  adapter : Answer
  swept : ℕ → Answer
  done : Answer
  refused : Refusal → Answer
