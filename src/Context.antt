-- ===== src/Context.antt =====
-- harness/context, with harness/agents/compact_store.py and idle_trigger.py: what a long conversation is
-- cut down to.
pub mod CompactStore
pub mod Compactor
pub mod Idle
pub mod Messages
pub mod Window
