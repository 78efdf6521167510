-- ===== src/Hooks.antt =====
-- harness/hooks: the hook framework.
pub mod Context
pub mod Dispatch
pub mod Runner
pub mod Filter
pub mod Registry
pub mod Bucket
pub mod Breaker
