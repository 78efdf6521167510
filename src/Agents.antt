-- ===== src/Agents.antt =====
-- harness/agents: the parts that plan and track pull requests.
pub mod PrSplit
pub mod Jobs
pub mod Outbound
pub mod Webhooks
pub mod Delivery
pub mod RepoLocks
pub mod Scratchpad
