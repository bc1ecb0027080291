-- ===== src/Menu.antt =====
-- packages/ketjs/src/kernel/menu.ts: the navigation tree. Groups is `regrouped`, Build is
-- `buildMenu`, Offered proves what a tree shows.
pub mod Groups
pub mod Build
pub mod Offered
pub mod Primary
mod Tests
