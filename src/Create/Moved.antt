-- ===== src/Create/Moved.antt =====
-- The pointers from elements to their segments behind `edi_segment_create` of libedi/build.c, which
-- moves the segments.
use libedi.Base.{Option}
