-- ===== src/Agents/Delivery.antt =====
-- harness/agents/outbound.py: the dispatcher of outbound webhooks, and the replay of its dead letters.
pub mod Attempts
pub mod Dispatcher
pub mod Resend
pub mod Budget
pub mod Rows
pub mod Settled
pub mod Served
pub mod Unreachable
pub mod ResentOnce
pub mod Accounts
mod Tests
