-- ===== src/Queue.antt =====
-- The durable job queue, packages/ketjs/src/server/queue.ts.
-- Row: the table `ket_job` and its statements. Operations: enqueue, the guarded transitions and
-- the reads. Claim: `claimBatch` on both databases and `rescue`. The other children are proofs.
pub mod Row
pub mod Operations
pub mod Claim
pub mod Unique
pub mod Steps
pub mod Consistent
pub mod Lifecycle
pub mod Exclusive
pub mod Guarantees
pub mod Coalesce
pub mod Rescued
mod Tests
