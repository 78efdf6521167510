-- ===== src/Agents/Webhooks.antt =====
-- harness/agents/webhook_handler.py: inbound webhooks of GitHub.
mod Dispatch
mod Stack
pub mod Inbound
pub mod Accepted
pub mod Once
pub mod Race
pub mod Signature
pub mod Lookup
pub mod Terminal
pub mod Complete
pub mod Stacks
pub mod Closing
mod Tests
unfoldable pub use Dispatch.*
unfoldable pub use Stack.*
