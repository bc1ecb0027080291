-- ===== src/Layout.antt =====
-- Page layouts, packages/ketjs/src/kernel/layout.ts. Json is the values of settings, Tree the
-- placements and their walk, Settings the check of a setting, Validate `validateLayout`, Identity
-- the placement ids, Changes `diffPlacements`. The other modules prove what they do.
pub mod Json
pub mod Tree
pub mod Settings
pub mod Validate
pub mod Identity
pub mod Changes
pub mod Fits
pub mod Typed
pub mod Valid
pub mod Depth
pub mod Identified
pub mod Same
pub mod Ids
mod Tests
