-- ===== src/Agents/PrSplit.antt =====
-- harness/agents/pr_split.py: the planner of stacked pull requests.
mod Group
mod Plan
pub mod Partition
pub mod Exact
mod Tests
pub mod Branches
pub mod Stack
pub mod Balance
pub mod Dropped
pub mod Directories
pub use Group.*
pub use Plan.*
