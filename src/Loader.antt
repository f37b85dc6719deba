-- ===== src/Loader.antt =====
-- The loader of libedistruct/struct_loader.c, which reads the tables of libedistruct from XML.
pub mod Memory
pub mod Driver
pub mod File
pub mod Buffers
pub mod Tree
pub mod Segments
pub mod Rows
pub mod Document
pub mod Tables
pub mod Elements
pub mod Codes
pub mod Structures
pub mod Directory
pub mod Load
pub mod Split
pub mod Depth
