-- ===== src/Server.antt =====
-- harness/server: the parts that decide on access.
pub mod Scopes
pub mod Tokens
pub mod Agent
