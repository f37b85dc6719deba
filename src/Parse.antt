-- ===== src/Parse.antt =====
-- The parser of libedi/parse.c, and what it promises.
pub mod Parser
pub mod Scan
pub mod Elements
pub mod Segments
pub mod Runs
pub mod Loop
pub mod Returns
pub mod Unterminated
pub mod Storage
pub mod State
pub mod Invariant
pub mod Kept
pub mod Entry
