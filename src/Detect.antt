-- ===== src/Detect.antt =====
-- The registry of dialects in libedi/detect.c, and how the dialect of a message is found.
pub mod Registry
pub mod Match
pub mod Names
pub mod Headers
pub mod Heap
pub mod Fair
pub mod Once
pub mod Entries
