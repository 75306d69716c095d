-- ===== src/Object.antt =====
-- Generic functions over objects (gobject.c, gobject.h).
pub mod Numbers
pub mod FloatByte
pub mod Log2
mod Tests
