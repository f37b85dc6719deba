-- ===== src/Build.antt =====
-- Writing an interchange: `edi_interchange_build` of libedi/build.c.
pub mod Buffer
pub mod Header
pub mod Write
pub mod Cut
pub mod Bounds
