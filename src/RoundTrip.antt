-- ===== src/RoundTrip.antt =====
-- What libedi/build.c writes, libedi/parse.c reads back.
pub mod Dialect
pub mod Values
pub mod Fields
pub mod Reached
pub mod Segments
pub mod Newlines
pub mod Messages
pub mod Unterminated
pub mod Entry
