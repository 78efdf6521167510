-- ===== src/Agents/Jobs.antt =====
-- harness/agents/jobs.py: the store of merge jobs.
mod Record
mod Store
pub mod Keys
pub mod Recovery
mod Tests
unfoldable pub use Record.*
unfoldable pub use Store.*
