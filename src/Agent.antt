-- ===== src/Agent.antt =====
-- What a role can reach, packages/ketjs/src/agent/permissions.ts. Reach is `reachOf`, Inventory
-- is `functionsOf` and `permissionInventory`; Union proves what a reach is.
pub mod Reach
pub mod Inventory
pub mod Keyed
pub mod Union
mod Tests
