-- ===== src/Xml.antt =====
-- The converter to XML of libedixml.
pub mod Tokens
pub mod Elements
pub mod Segments
pub mod Escape
pub mod Nested
pub mod Sink
pub mod Delivered
pub mod Complete
pub mod Whole
pub mod Tables
pub mod Parsed
pub mod Conv
pub mod Envelope
pub mod Output
pub mod Written
pub mod Charset
pub mod Errors
