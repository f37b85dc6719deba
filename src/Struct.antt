-- ===== src/Struct.antt =====
-- The tables of libedistruct, and the searches in them.
pub mod Tables
pub mod Lookup
pub mod Order
pub mod Search
pub mod Coded
