-- ===== src/Session.antt =====
-- Sessions, packages/ketjs/src/server/sessionstore.ts. Record is the data, Memory and Database are
-- the two stores with their laws in MemoryLaws and DatabaseLaws (with
-- the calls on one record in MemoryCalls and DatabaseCalls), Store is the contract that both
-- fill, and Agree
-- and Equivalent show that no caller can tell them apart.
pub mod Record
pub mod Store
pub mod Memory
pub mod Database
pub mod Views
pub mod MemoryCalls
pub mod MemoryLaws
pub mod DatabaseCalls
pub mod DatabaseLaws
pub mod Agree
pub mod Equivalent
mod Tests
