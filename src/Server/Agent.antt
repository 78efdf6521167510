-- ===== src/Server/Agent.antt =====
-- harness/server/agent/loop.py and harness/server/llm/router.py: the loop between the model and the
-- tools, and what it gets from the streaming router.
pub mod Stream
pub mod Chat
pub mod Loop
pub mod Whole
pub mod Least
pub mod Assembled
pub mod Closes
pub mod Dialogue
pub mod Offload
pub mod ReadBack
mod Tests
