-- ===== src/Diff.antt =====
-- The upgrade diff, packages/ketjs/src/kernel/diff.ts: Item has the items and what compares two
-- values; Models, Functions and Surface are the loops of `diffManifests`, one function to a loop.
pub mod Item
pub mod Models
pub mod Functions
pub mod Surface
pub mod Compatible
mod Tests
